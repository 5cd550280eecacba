-- ===== src/Store/Due/Select.antt =====
-- Which users one poll of the schedule answers: the first `limit` of those found ready in the pages
-- it may read, by Lua and without.
use my_mtlwallet_bot.Prelude.{
  ℕ, zero, suc, ◌+◌, ◌*◌, ◌≤◌, ◌≡◌, refl, sym, ap, ◌∙◌, Bool, true, false, Option, none, some, List,
  [], ◌∷◌, ◌++◌, arith, ltb, ◌==◌, if◌then◌else◌, length, take, drop, take_all, take_full,
  length-append, take-add, take-add_short, drop-add, length-take-le, Bool-cases, inl, inr,
}
use native.Mathlib.Nat.{zero-mul}
use mathlib.Core.List.{append-nil, append_assoc}
use my_mtlwallet_bot.Redis.{Redis, hold, pending}
use my_mtlwallet_bot.Store.Transaction.{Round, transact}
use my_mtlwallet_bot.Store.Methods.{Server, eval, no_eval, atomically}
use my_mtlwallet_bot.Store.Due.{
  Schedule, Verdict, stale, ready, later, verdict, Scan, nothing, sort_user, Queue, verdict_of,
  sort_page, scan_pages, due_users_script, collect_pages, queue_user, queue_users,
  due_users_without_lua, due_users, max_due_scan_pages,
}

abbrev pub is_ready : Verdict → Bool
is_ready stale = false
is_ready ready = true
is_ready (later t) = false

-- The state that the last pass of the loop without Lua reads.
abbrev pub last_read : {S : Type 0} → List (Round S) → S → S
last_read [] s = s
last_read (round ∷ rounds) s = if round.aborted then last_read rounds (round.after s) else s

module _ (r : Redis) (schedule : Schedule r) (now limit : ℕ) where
  abbrev pub ready_users : r.Db → List ℕ → List ℕ
  ready_users db [] = []
  ready_users db (user ∷ users) =
      if is_ready (verdict_of r schedule now limit user db)
      then user ∷ ready_users db users
      else ready_users db users

  module _ (db : r.Db) where
    sort_page-append :
        (xs ys : List ℕ) (s : Scan)
        → sort_page r schedule now limit (xs ++ ys) db s
          ≡ sort_page r schedule now limit ys db (sort_page r schedule now limit xs db s)
    unfolding sort_page
    sort_page-append [] ys s = refl
    sort_page-append (x ∷ xs) ys s = sort_page-append xs ys _

    sort_user-full :
        (u : ℕ) (v : Verdict) (s : Scan)
        → limit ≤ length s.due_users
        → (sort_user limit u v s).due_users ≡ s.due_users
    sort_user-full u stale s h = refl
    sort_user-full u ready s h = ground arith
    sort_user-full u (later t) s h = refl

    -- Once the reply is full, it stays as it is.
    sort_page-full :
        (xs : List ℕ) (s : Scan)
        → limit ≤ length s.due_users
        → (sort_page r schedule now limit xs db s).due_users ≡ s.due_users
    unfolding sort_page
    sort_page-full [] s h = refl
    sort_page-full (x ∷ xs) s h =
        let e = sort_user-full x (verdict_of r schedule now limit x db) s h in
        sort_page-full xs _ (rw e h) ∙ e

    sort_page-nil :
        (xs : List ℕ) (s : Scan)
        → (length xs == 0) ≡ true
        → sort_page r schedule now limit xs db s ≡ s
    unfolding sort_page
    sort_page-nil [] s h = refl
    sort_page-nil (x ∷ xs) s h = absurd (ground arith)

    -- The pages that the script leaves unread would change nothing in its reply.
    scan_pages-due :
        (pages offset : ℕ) (s : Scan)
        → (scan_pages r schedule now limit pages offset db s).due_users
          ≡ (sort_page r schedule now limit
              (collect_pages r schedule now limit pages offset db)
              db
              s).due_users
    unfolding scan_pages collect_pages sort_page
    scan_pages-due zero offset s = refl
    scan_pages-due (suc pages) offset s =
        let users = schedule.zrangebyscore now offset limit db in
        let s' = sort_page r schedule now limit users db s in
        let unread = collect_pages r schedule now limit pages (offset + length users) db in
        ground (
          arith,
          sort_page-append users unread s,
          sort_page-full unread s',
          scan_pages-due pages (offset + length users) s',
          sort_page-nil users s,
        )

    -- Sorting one user keeps the reply within the limit, and takes the user in if there is room.
    sort_user-due :
        (u : ℕ) (v : Verdict) (ys : List ℕ) (s : Scan)
        → length s.due_users ≤ limit
        → (length (sort_user limit u v s).due_users ≤ limit)
          × (take limit ((sort_user limit u v s).due_users ++ ys)
              ≡ take limit (s.due_users ++ (if is_ready v then u ∷ ys else ys)))
    sort_user-due u stale ys s h = (h, refl)
    sort_user-due u (later t) ys s h = (h, refl)
    sort_user-due u ready ys s h = elim (Bool-cases (ltb (length s.due_users) limit)) [
      | inl room ↦ rw room (
        ground (arith, length-append s.due_users (u ∷ [])),
        ap (take limit) (append_assoc s.due_users (u ∷ []) ys),
      )
      | inr full ↦ rw full (h, take_full limit s.due_users ys (u ∷ ys) (ground arith))
    ]

    sort_page-due :
        (xs : List ℕ) (s : Scan)
        → length s.due_users ≤ limit
        → (sort_page r schedule now limit xs db s).due_users
          ≡ take limit (s.due_users ++ ready_users db xs)
    unfolding sort_page
    sort_page-due [] s h = rw (append-nil s.due_users) (sym (take_all limit s.due_users h))
    sort_page-due (x ∷ xs) s h =
        let v = verdict_of r schedule now limit x db in
        let step = sort_user-due x v (ready_users db xs) s h in
        sort_page-due xs (sort_user limit x v s) step.0 ∙ step.1

    -- The pass without Lua picks the same users.
    queue_user-due :
        (u : ℕ) (h : Option ℕ) (count : ℕ) (q : Queue r.Db) (s : Scan)
        → q.due_users ≡ s.due_users
        → (queue_user r schedule now limit u h count q).due_users
          ≡ (sort_user limit u (verdict h count now) s).due_users
    queue_user-due u none count q s e = ground arith
    queue_user-due u (some t) count q s e = ground arith

    queue_users-due :
        (us : List ℕ) (q : Queue r.Db) (s : Scan)
        → q.due_users ≡ s.due_users
        → (queue_users r schedule now limit us db q).due_users
          ≡ (sort_page r schedule now limit us db s).due_users
    unfolding queue_users sort_page
    queue_users-due [] q s e = e
    queue_users-due (u ∷ us) q s e =
        let h = r.get (hold u) db in
        let count = r.llen (pending u) db in
        queue_users-due us (queue_user r schedule now limit u h count q)
          (sort_user limit u (verdict h count now) s) (queue_user-due u h count q s e)

  plan-script :
      (db : r.Db)
      → (queue_users r schedule now limit
          (collect_pages r schedule now limit max_due_scan_pages 0 db)
          db
          (record { due_users = []; writes = λ db'. db' })).due_users
        ≡ (due_users_script r schedule now limit db).0
  unfolding due_users_script
  plan-script db =
      queue_users-due db (collect_pages r schedule now limit max_due_scan_pages 0 db) _ nothing refl
      ∙ sym (scan_pages-due db max_due_scan_pages 0 nothing)

  transact-read :
      (rounds : List (Round r.Db)) (db : r.Db)
      → (transact (due_users_without_lua r schedule now limit) rounds db).0
        ≡ (due_users_script r schedule now limit (last_read rounds db)).0
  unfolding transact due_users_without_lua
  transact-read [] db = plan-script db
  transact-read (round ∷ rounds) db = elim (Bool-cases round.aborted) [
    | inl e ↦ rw e (transact-read rounds (round.after db))
    | inr e ↦ rw e (plan-script db)
  ]

  -- The pages that are read are one stretch of the schedule.
  collect_pages-range :
      (pages offset : ℕ) (db : r.Db)
      → collect_pages r schedule now limit pages offset db
        ≡ take (pages * limit) (drop offset (schedule.range now db))
  unfolding collect_pages
  collect_pages-range zero offset db = rw (zero-mul limit) refl
  collect_pages-range (suc pages) offset db =
      let users = schedule.range now db in
      let page = take limit (drop offset users) in
      let ih = collect_pages-range pages (offset + length page) db in
      rw (schedule.page_reply now offset limit db, ih)
        (elim (Bool-cases (ltb (length page) limit)) [
          | inl short ↦ rw short (
              take-add_short limit (pages * limit) (drop offset users) (ground arith)
              ∙ ap (λ n. take n (drop offset users)) (omega arith))
          | inr long ↦
              let full : length page ≡ limit =
                ground (arith, length-take-le limit (drop offset users)) in
              rw (long, full, drop-add offset limit users)
                (sym (take-add limit (pages * limit) (drop offset users))
                  ∙ ap (λ n. take n (drop offset users)) (omega arith))
        ])

  due_users_script-ready :
      (db : r.Db)
      → (due_users_script r schedule now limit db).0
        ≡ take limit (ready_users db (take (max_due_scan_pages * limit) (schedule.range now db)))
  unfolding due_users_script
  due_users_script-ready db =
      scan_pages-due db max_due_scan_pages 0 nothing
      ∙ sort_page-due db (collect_pages r schedule now limit max_due_scan_pages 0 db) nothing
          (omega arith)
      ∙ ap (λ l. take limit (ready_users db l)) (collect_pages-range max_due_scan_pages 0 db)

  -- The state whose schedule a call reads.
  abbrev pub read_at : Server r.Db → r.Db → r.Db
  read_at eval db = db
  read_at (no_eval rounds) db = last_read rounds db

  -- due_users, by Lua or by the WATCH loop with its own scan, answers the first users, as many as
  -- asked for, among those of the first ten pages of due entries who have a hold that is over, or
  -- no hold and waiting events, in the state that its reads see.
  pub due_users-ready :
      (server : Server r.Db) (db : r.Db)
      → (due_users r schedule now limit server db).0
        ≡ take limit (
            ready_users
              (read_at server db)
              (take (max_due_scan_pages * limit) (schedule.range now (read_at server db))))
  unfolding due_users atomically
  due_users-ready eval db = due_users_script-ready db
  due_users-ready (no_eval rounds) db =
      transact-read rounds db ∙ due_users_script-ready (last_read rounds db)
