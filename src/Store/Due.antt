-- ===== src/Store/Due.antt =====
-- `_DUE_USERS`, `due_users` and `_due_users_without_lua` of
-- bot/infrastructure/services/notification_redis_store.py: one poll of the schedule, which answers
-- the users whose hold is over and repairs the entries it meets.
pub mod Select
pub mod Repair
use my_mtlwallet_bot.Prelude.{
  ℕ, zero, suc, ◌+◌, ◌≡◌, Bool, true, false, ◌||◌, Option, none, some, List, [], ◌∷◌, ◌++◌, ltb,
  leb, ◌==◌, if◌then◌else◌, length, take, drop,
}
use my_mtlwallet_bot.Redis.{Redis, hold, pending, due}
use my_mtlwallet_bot.Store.Scripts.{is_due}
use my_mtlwallet_bot.Store.Transaction.{Plan, commit}
use my_mtlwallet_bot.Store.Methods.{Server, atomically}

abbrev pub contains : ℕ → List ℕ → Bool
contains u [] = false
contains u (v ∷ vs) = v == u || contains u vs

-- ZRANGEBYSCORE on the schedule: `range now` is its reply from -inf to `now`, by score, and LIMIT
-- cuts a page out of it.
pub record Schedule (r : Redis) : Type 0 where
  pub range : ℕ → r.Db → List ℕ
  pub zrangebyscore : ℕ → ℕ → ℕ → r.Db → List ℕ
  pub page_reply :
      (now offset count : ℕ) (db : r.Db)
      → zrangebyscore now offset count db ≡ take count (drop offset (range now db))
  pub range_reply :
      (now u : ℕ) (db : r.Db) → contains u (range now db) ≡ is_due ((r.view db).scores due u) now

abbrev pub max_due_scan_pages : ℕ
max_due_scan_pages = 10

-- What a scan finds of one user.
pub data Verdict : Type 0 where
  stale ready : Verdict
  later : ℕ → Verdict

abbrev pub verdict : Option ℕ → ℕ → ℕ → Verdict
verdict none pending_count now = if ltb 0 pending_count then ready else stale
verdict (some hold_until) pending_count now = if leb hold_until now then ready else later hold_until

-- The script's three tables.
pub record Scan : Type 0 where
  pub due_users : List ℕ
  pub stale_users : List ℕ
  pub rescheduled_users : List (ℕ × ℕ)

abbrev pub nothing : Scan
nothing = record { due_users = []; stale_users = []; rescheduled_users = [] }

abbrev pub sort_user : ℕ → ℕ → Verdict → Scan → Scan
sort_user limit user stale s = record s { stale_users = s.stale_users ++ user ∷ [] }
sort_user limit user ready s =
    if ltb (length s.due_users) limit then record s { due_users = s.due_users ++ user ∷ [] } else s
sort_user limit user (later hold_until) s = record s {
  rescheduled_users = s.rescheduled_users ++ (user, hold_until) ∷ [];
}

-- The due users so far and the writes so far of the pass without Lua.
pub record Queue (S : Type 0) : Type 0 where
  pub due_users : List ℕ
  pub writes : S → S

module _ (r : Redis) (schedule : Schedule r) (now limit : ℕ) where
  abbrev pub verdict_of : ℕ → r.Db → Verdict
  verdict_of user db = verdict (r.get (hold user) db) (r.llen (pending user) db) now

  -- `for _, user_id in ipairs(users)`
  unfoldable pub sort_page : List ℕ → r.Db → Scan → Scan
  sort_page [] db s = s
  sort_page (user ∷ users) db s = sort_page users db (sort_user limit user (verdict_of user db) s)

  -- `for _ = 1, tonumber(ARGV[5])`
  unfoldable pub scan_pages : ℕ → ℕ → r.Db → Scan → Scan
  scan_pages zero offset db s = s
  scan_pages (suc pages) offset db s =
      let users = schedule.zrangebyscore now offset limit db in
      let s' = sort_page users db s in
      let rest = scan_pages pages (offset + length users) db s' in
      if length users == 0
      then s
      else if leb limit (length s'.due_users) || ltb (length users) limit
      then s'
      else rest

  unfoldable pub remove_stale : List ℕ → r.Db → r.Db
  remove_stale [] db = db
  remove_stale (user ∷ users) db = remove_stale users (r.zrem due user db)

  unfoldable pub reschedule : List (ℕ × ℕ) → r.Db → r.Db
  reschedule [] db = db
  reschedule ((user, hold_until) ∷ users) db = reschedule users (r.zadd due hold_until user db)

  -- _DUE_USERS
  unfoldable pub due_users_script : r.Db → List ℕ × r.Db
  due_users_script db =
      let s = scan_pages max_due_scan_pages 0 db nothing in
      (s.due_users, reschedule s.rescheduled_users (remove_stale s.stale_users db))

  -- The pages that the pass without Lua reads first: all of them, up to a short one.
  unfoldable pub collect_pages : ℕ → ℕ → r.Db → List ℕ
  collect_pages zero offset db = []
  collect_pages (suc pages) offset db =
      let page = schedule.zrangebyscore now offset limit db in
      let rest = collect_pages pages (offset + length page) db in
      if ltb (length page) limit then page else page ++ rest

  abbrev pub queue_user : ℕ → Option ℕ → ℕ → Queue r.Db → Queue r.Db
  queue_user user none pending_count q =
      if pending_count == 0
      then record q { writes = λ db. r.zrem due user (q.writes db) }
      else if ltb (length q.due_users) limit
      then record q { due_users = q.due_users ++ user ∷ [] }
      else q
  queue_user user (some hold_until) pending_count q =
      if leb hold_until now
      then (if ltb (length q.due_users) limit
          then record q { due_users = q.due_users ++ user ∷ [] }
          else q)
      else record q { writes = λ db. r.zadd due hold_until user (q.writes db) }

  unfoldable pub queue_users : List ℕ → r.Db → Queue r.Db → Queue r.Db
  queue_users [] db q = q
  queue_users (user ∷ users) db q =
      queue_users users db (queue_user user (r.get (hold user) db) (r.llen (pending user) db) q)

  -- _due_users_without_lua
  unfoldable pub due_users_without_lua : r.Db → Plan r.Db (List ℕ)
  due_users_without_lua db =
      let users = collect_pages max_due_scan_pages 0 db in
      let q = queue_users users db (record { due_users = []; writes = λ db'. db' }) in
      commit q.writes q.due_users

  -- due_users
  unfoldable pub due_users : Server r.Db → r.Db → List ℕ × r.Db
  due_users server db = atomically server due_users_script due_users_without_lua db
