-- ===== src/Worker.antt =====
-- bot/infrastructure/workers/notification_delivery_worker.py: the poller of the schedule, and the
-- flushes it has running. A task is named by the number of its start.
pub mod Slots
pub mod Serves
use my_mtlwallet_bot.Prelude.{
  ℕ, ◌+◌, ◌-◌, Bool, true, false, not, ◌||◌, Option, none, some, List, [], ◌∷◌, ◌++◌, leb, ◌==◌,
  if◌then◌else◌, is_some, length,
}
use my_mtlwallet_bot.Prelude.Dict.{Dict, get, put, del}
use my_mtlwallet_bot.Redis.{Redis}
use my_mtlwallet_bot.Store.Methods.{Result, ok, value_error, Server}
use my_mtlwallet_bot.Store.Due.{Schedule, due_users}

pub record Worker : Type 0 where
  pub batch_size : ℕ
  pub active_flushes : Dict ℕ
  pub next_task : ℕ

-- `__init__`; the interval is a float, known by its two tests.
unfoldable pub init : Bool → Bool → ℕ → Result Worker
init is_finite is_positive batch_size =
    if not is_finite || not is_positive
    then value_error
    else if leb batch_size 0
    then value_error
    else ok (record { batch_size = batch_size; active_flushes = []; next_task = 0 })

-- `create_task` and its entry in the table.
unfoldable pub start : ℕ → Worker → Worker
start user w = record w {
  active_flushes = put user w.next_task w.active_flushes;
  next_task = w.next_task + 1;
}

-- The loop of poll_once over the due users: those started, and the worker.
unfoldable pub start_flushes : ℕ → List ℕ → List ℕ → Worker → List ℕ × Worker
start_flushes available_slots [] started w = (started, w)
start_flushes available_slots (user ∷ users) started w =
    let skipped = start_flushes available_slots users started w in
    let taken = start_flushes available_slots users (started ++ user ∷ []) (start user w) in
    if is_some (get user w.active_flushes)
    then skipped
    else if leb available_slots (length started)
    then (started, w)
    else taken

-- _flush_done: the entry goes only if it is the task's own.
abbrev pub is_own : Option ℕ → ℕ → Bool
is_own none task = false
is_own (some other) task = other == task

unfoldable pub flush_done : ℕ → ℕ → Worker → Worker
flush_done user task w =
    if is_own (get user w.active_flushes) task
    then record w { active_flushes = del user w.active_flushes }
    else w

unfoldable pub flushes_done : List (ℕ × ℕ) → Worker → Worker
flushes_done [] w = w
flushes_done ((user, task) ∷ ended) w = flushes_done ended (flush_done user task w)

module _ (r : Redis) (schedule : Schedule r) where
  -- poll_once, up to the wait for the flushes it started. `ended` are the users and tasks whose
  -- flushes end while `due_users` is awaited.
  unfoldable pub poll_once :
      Server r.Db → ℕ → List (ℕ × ℕ) → Worker → r.Db → (List ℕ × Worker) × r.Db
  poll_once server now ended w db =
      let (user_ids, db') =
        due_users r schedule now (w.batch_size + length w.active_flushes) server db in
      let w' = flushes_done ended w in
      let available_slots = w'.batch_size - length w'.active_flushes in
      (start_flushes available_slots user_ids [] w', db')
