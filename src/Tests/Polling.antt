-- ===== src/Tests/Polling.antt =====
-- Polls of the schedule and of the delivery worker on concrete inputs.
use my_mtlwallet_bot.Prelude.{
  ℕ, ◌≡◌, ◌≤◌, ◌⊎◌, refl, true, false, Option, none, some, List, [], ◌∷◌, arith, ◌==◌, ==_iff,
  ==_refl, if◌then◌else◌, is_some, length, take, drop, Bool-cases, inl, inr,
}
use my_mtlwallet_bot.Redis.{due, pending, hold}
use my_mtlwallet_bot.Redis.Indexed.{Index, indexed, empty_index, listed}
use my_mtlwallet_bot.Store.Scripts.{is_due}
use my_mtlwallet_bot.Prelude.Dict.{get}
use my_mtlwallet_bot.Store.Methods.{eval, atomically}
use my_mtlwallet_bot.Store.Due.{
  Schedule, contains, due_users, due_users_script, sort_page, scan_pages,
}
use my_mtlwallet_bot.Store.Due.Select.{ready_users, due_users-ready}
use my_mtlwallet_bot.Worker.{Worker, poll_once}
use my_mtlwallet_bot.Worker.Serves.{poll_once-serves}
use my_mtlwallet_bot.Worker.Slots.{polled, done, history, IsWithin, history-IsWithin}
use my_mtlwallet_bot.Tests.{first_event}

abbrev due_members : ℕ → Index → List ℕ → List ℕ
due_members now db [] = []
due_members now db (u ∷ us) =
    if is_due (db.keyspace.scores due u) now
    then u ∷ due_members now db us
    else due_members now db us

not_due :
    (now u : ℕ) (db : Index) (us : List ℕ)
    → is_due (db.keyspace.scores due u) now ≡ false
    → contains u (due_members now db us) ≡ false
not_due now u db [] h = refl
not_due now u db (v ∷ us) h =
    let ih = not_due now u db us h in
    elim (Bool-cases (is_due (db.keyspace.scores due v) now)) [
      | inl e ↦ rw e (elim (Bool-cases (v == u)) [
        | inl same ↦ cc (e, h, (==_iff v u).0 same)
        | inr other ↦ rw (other, ih) refl
      ])
      | inr e ↦ rw e ih
    ]

found_due :
    (now u : ℕ) (db : Index) (us : List ℕ)
    → is_due (db.keyspace.scores due u) now ≡ true
    → listed u us ≡ true
    → contains u (due_members now db us) ≡ true
found_due now u db [] h l = l
found_due now u db (v ∷ us) h l = elim (Bool-cases (v == u)) [
  | inl same ↦ rw ((==_iff v u).0 same, h, ==_refl u) refl
  | inr other ↦
      let ih = found_due now u db us h (rw other at l) in
      elim (Bool-cases (is_due (db.keyspace.scores due v) now)) [
        | inl e ↦ rw (e, other, ih) refl
        | inr e ↦ rw e ih
      ]
]

scheduled_of_due : (o : Option ℕ) (now : ℕ) → is_due o now ≡ true → is_some o ≡ true
scheduled_of_due none now h = h
scheduled_of_due (some t) now h = refl

pub contains-due_members :
    (now u : ℕ) (db : Index) (us : List ℕ)
    → (is_some (db.keyspace.scores due u) ≡ true → listed u us ≡ true)
    → contains u (due_members now db us) ≡ is_due (db.keyspace.scores due u) now
contains-due_members now u db us h = elim (Bool-cases (is_due (db.keyspace.scores due u) now)) [
  | inl e ↦ rw e (found_due now u db us e (h (scheduled_of_due _ now e)))
  | inr e ↦ rw e (not_due now u db us e)
]

abbrev pub schedule : Schedule indexed
schedule = record {
  range = λ now db. due_members now db db.members;
  zrangebyscore = λ now offset count db. take count (drop offset (due_members now db db.members));
  page_reply = λ now offset count db. refl;
  range_reply = λ now u db. contains-due_members now u db db.members (db.complete u);
}

-- User 7 waits since 1000, user 9 holds until 1060 and stands too early in the schedule, and user 8
-- has nothing left to do.
abbrev waiting_at : ℕ → Index
waiting_at score = indexed.zadd due score 7 (
    indexed.rpush (pending 7) first_event
      (indexed.set (hold 9) 1060 (indexed.zadd due 1000 9 (indexed.zadd due 1000 8 empty_index))))

abbrev worker : Worker
worker = record { batch_size = 4; active_flushes = []; next_task = 0 }

due_users_run : (due_users indexed schedule 1010 4 eval (waiting_at 1000)).0 ≡ 7 ∷ []
unfolding due_users atomically due_users_script scan_pages sort_page
due_users_run = refl

due_users-ready_example :
    (due_users indexed schedule 1010 4 eval (waiting_at 1000)).0
    ≡ take 4 (
        ready_users indexed schedule 1010 4
          (waiting_at 1000)
          (take 40 (schedule.range 1010 (waiting_at 1000))))
due_users-ready_example = due_users-ready indexed schedule 1010 4 eval (waiting_at 1000)

poll_once-serves_example :
    let after = (poll_once indexed schedule eval 1010 [] worker (waiting_at 1000)).0.1 in
    (is_some (get 7 after.active_flushes) ≡ true) ⊎ (4 ≤ length after.active_flushes)
poll_once-serves_example =
    poll_once-serves indexed schedule eval 1010 [] worker (waiting_at 1000) 7 (omega arith) refl
      refl (λ e. cc)

history-IsWithin_example :
    let after =
      history indexed schedule
        (polled eval 1010 [] (λ db. db) ∷ done 7 0 ∷ [])
        (worker, waiting_at 1000) in
    IsWithin indexed schedule after.0 × (after.0.batch_size ≡ 4)
history-IsWithin_example =
    history-IsWithin indexed schedule (polled eval 1010 [] (λ db. db) ∷ done 7 0 ∷ [])
      (worker, waiting_at 1000) (omega arith)
