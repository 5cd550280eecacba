-- ===== src/Worker/Serves.antt =====
-- One poll starts a flush for every user who is due, as far as the slots go.
use my_mtlwallet_bot.Prelude.{
  ℕ, ◌+◌, ◌-◌, ◌*◌, ◌≤◌, ◌≡◌, ◌≢◌, ◌⊎◌, refl, ◌∙◌, Bool, true, false, Option, none, some, List, [],
  ◌∷◌, ◌++◌, arith, leb, ◌==◌, ==_iff, ==_refl, is_some, length, take_all, Bool-cases, inl, inr,
}
use my_mtlwallet_bot.Prelude.Dict.{get, get-put, get_put_other}
use my_mtlwallet_bot.Notification.{BlockchainNotification}
use my_mtlwallet_bot.Redis.{Redis, hold, pending, due}
use my_mtlwallet_bot.Store.Scripts.{is_due, is_active}
use my_mtlwallet_bot.Store.Methods.{Server}
use my_mtlwallet_bot.Store.Due.{
  contains, Schedule, verdict, verdict_of, due_users, max_due_scan_pages,
}
use my_mtlwallet_bot.Store.Due.Select.{is_ready, ready_users, read_at, due_users-ready}
use my_mtlwallet_bot.Worker.{Worker, start, start_flushes, flushes_done, poll_once}
use my_mtlwallet_bot.Worker.Slots.{length-start_flushes, flushes_done-less}

abbrev is_flushed : ℕ → Worker → Bool
is_flushed user w = is_some (get user w.active_flushes)

-- A start keeps the flushes that run.
start-keeps : (u v : ℕ) (w : Worker) → is_flushed v w ≡ true → is_flushed v (start u w) ≡ true
unfolding start
start-keeps u v w h = elim (Bool-cases (u == v)) [
  | inl e ↦ rw ((==_iff u v).0 e, get-put v w.next_task w.active_flushes) refl
  | inr e ↦ rw (get_put_other v u w.next_task w.active_flushes e) h
]

start-same : (u v : ℕ) (w : Worker) → u ≡ v → is_flushed v (start u w) ≡ true
unfolding start
start-same u v w e = rw (e, get-put v w.next_task w.active_flushes) refl

start_flushes-keeps :
    (slots : ℕ) (users started : List ℕ) (v : ℕ) (w : Worker)
    → is_flushed v w ≡ true
    → is_flushed v (start_flushes slots users started w).1 ≡ true
unfolding start_flushes
start_flushes-keeps slots [] started v w h = h
start_flushes-keeps slots (u ∷ us) started v w h = ground (
  arith,
  start_flushes-keeps slots us started v w,
  start_flushes-keeps slots us (started ++ u ∷ []) v (start u w),
  start-keeps u v w,
)

-- Every due user has a flush in the end, or the slots are used up.
start_flushes-serves :
    (slots : ℕ) (users started : List ℕ) (v : ℕ) (w : Worker)
    → contains v users ≡ true
    → let out = start_flushes slots users started w in
      (is_flushed v out.1 ≡ true) ⊎ (slots ≤ length out.0)
unfolding start_flushes
start_flushes-serves slots [] started v w h = cc
start_flushes-serves slots (u ∷ us) started v w h =
    elim (Bool-cases (is_some (get u w.active_flushes))) [
      | inl on ↦ rw on (elim (Bool-cases (u == v)) [
        | inl same ↦ inl (start_flushes-keeps slots us started v w (rw ((==_iff u v).0 same) at on))
        | inr other ↦ start_flushes-serves slots us started v w (rw other at h)
      ])
      | inr off ↦ rw off (elim (Bool-cases (leb slots (length started))) [
        | inl full ↦ rw full (inr (ground arith))
        | inr room ↦ rw room (elim (Bool-cases (u == v)) [
          | inl same ↦ inl (
              start_flushes-keeps slots us (started ++ u ∷ []) v (start u w)
                (start-same u v w ((==_iff u v).0 same)))
          | inr other ↦
              start_flushes-serves slots us (started ++ u ∷ []) v (start u w) (rw other at h)
        ])
      ])
    ]

-- A user found in the schedule and found ready is in the reply.
module _ (r : Redis) (schedule : Schedule r) (now limit : ℕ) (db : r.Db) where
  contains-ready_users :
      (us : List ℕ) (u : ℕ)
      → contains u us ≡ true
      → is_ready (verdict_of r schedule now limit u db) ≡ true
      → contains u (ready_users r schedule now limit db us) ≡ true
  contains-ready_users [] u h e = h
  contains-ready_users (v ∷ us) u h e = elim (Bool-cases (v == u)) [
    | inl same ↦ rw ((==_iff v u).0 same, e) (rw (==_refl u) refl)
    | inr other ↦
        let ih = contains-ready_users us u (rw other at h) e in
        elim (Bool-cases (is_ready (verdict_of r schedule now limit v db))) [
          | inl keep ↦ rw keep (rw other ih)
          | inr drop ↦ rw drop ih
        ]
  ]

  length-ready_users-le :
      (us : List ℕ) → length (ready_users r schedule now limit db us) ≤ length us
  length-ready_users-le [] = omega arith
  length-ready_users-le (v ∷ us) = ground (arith, length-ready_users-le us)

verdict-ready :
    (h : Option ℕ) (q : List BlockchainNotification) (now : ℕ)
    → is_active h now ≡ false
    → q ≢ []
    → is_ready (verdict h (length q) now) ≡ true
verdict-ready none [] now a e = absurd (e refl)
verdict-ready none (n ∷ q) now a e = ground arith
verdict-ready (some t) q now a e = ground arith

module _ (r : Redis) (schedule : Schedule r) (server : Server r.Db) (now : ℕ) (ended : List (ℕ × ℕ))
    (w : Worker) (db : r.Db) (v : ℕ) where
  abbrev seen : r.Db
  seen = read_at r schedule now (w.batch_size + length w.active_flushes) server db

  abbrev after : Worker
  after = (poll_once r schedule server now ended w db).0.1

  -- After a poll of the delivery worker, whichever flushes end while it awaits the schedule,
  -- every user with waiting events whose entry in the schedule is due and whose hold is over has
  -- a flush running, unless the worker runs as many flushes as its batch size; no more entries
  -- are due than one reply may hold.
  pub poll_once-serves :
      length (schedule.range now seen) ≤ w.batch_size + length w.active_flushes
      → is_due ((r.view seen).scores due v) now ≡ true
      → is_active ((r.view seen).strings (hold v)) now ≡ false
      → (r.view seen).lists (pending v) ≢ []
      → (is_some (get v after.active_flushes) ≡ true) ⊎ (w.batch_size ≤ length after.active_flushes)
  unfolding poll_once
  poll_once-serves few scheduled free waits =
      let limit = w.batch_size + length w.active_flushes in
      let users = schedule.range now seen in
      let is_found : is_ready (verdict_of r schedule now limit v seen) ≡ true =
        rw (r.get_reply (hold v) seen, r.llen_reply (pending v) seen)
          (verdict-ready ((r.view seen).strings (hold v)) ((r.view seen).lists (pending v)) now free
            waits) in
      let listed =
        contains-ready_users r schedule now limit seen users v
          (schedule.range_reply now v seen ∙ scheduled) is_found in
      let reply : (due_users r schedule now limit server db).0
          ≡ ready_users r schedule now limit seen users =
        due_users-ready r schedule now limit server db
        ∙ rw (take_all (max_due_scan_pages * limit) users (omega arith)) (
            take_all limit (ready_users r schedule now limit seen users)
              (omega (arith, length-ready_users-le r schedule now limit seen users))) in
      let w' = flushes_done ended w in
      let d = flushes_done-less ended w in
      let slots = w'.batch_size - length w'.active_flushes in
      let counted =
        length-start_flushes slots (due_users r schedule now limit server db).0 [] w'
          (omega arith) in
      elim (start_flushes-serves slots (due_users r schedule now limit server db).0 [] v w'
        (rw reply listed)) [ inl on ↦ inl on | inr full ↦ inr (omega (arith, counted.1, d.1)) ]
