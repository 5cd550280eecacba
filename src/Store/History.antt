-- ===== src/Store/History.antt =====
-- What clients of bot/infrastructure/services/notification_redis_store.py may do to the database
-- over time: any number of bot instances run its scripts and its transaction `release`, in any order
-- and for any users, and keys with a time to live lapse at any moment.
pub mod Kept
pub mod Invariant
pub mod Sequence
pub mod Issued
use my_mtlwallet_bot.Prelude.{ℕ, List, [], ◌∷◌, ◌≡◌}
use my_mtlwallet_bot.Notification.{BlockchainNotification}
use my_mtlwallet_bot.Redis.{Redis, hold, hold_generation, dedupe, flush_lock}
use my_mtlwallet_bot.Store.Scripts.{
  touch_hold, release_due_hold, release_hold_generation, enqueue_script, claim_accept_script,
  acknowledge_head, acknowledge_head_if_lock_owned, clear_immediate_due, acquire_lock,
  release_lock_script, renew_lock_script,
}
use my_mtlwallet_bot.Store.Methods
use my_mtlwallet_bot.Store.Methods.{StoreConfig, eval}
use my_mtlwallet_bot.Store.Due.{Schedule, due_users_script}

pub data Event : Type 0 where
  touch : (user hold_until ttl : ℕ) → Event
  release_due : (user expected_hold_until now : ℕ) → Event
  release_generation : (user expected_generation now : ℕ) → Event
  release_flow : (user : ℕ) → Event
  enqueue_event : (user : ℕ) (n : BlockchainNotification) (ttl : ℕ) → Event
  poll : (now limit : ℕ) → Event
  claim : (user : ℕ) (n : BlockchainNotification) (ttl now : ℕ) → Event
  acknowledge : (user : ℕ) (n : BlockchainNotification) → Event
  acknowledge_owned : (user : ℕ) (n : BlockchainNotification) (token : ℕ) → Event
  clear_due : (user token now : ℕ) → Event
  lock : (user token ttl : ℕ) → Event
  unlock : (user token : ℕ) → Event
  renew : (user token ttl : ℕ) → Event
  hold_lapses : (user : ℕ) → Event
  generation_lapses : (user : ℕ) → Event
  dedupe_lapses : (user : ℕ) → Event
  lock_lapses : (user : ℕ) → Event

module _ (r : Redis) (schedule : Schedule r) (config : StoreConfig) where
  unfoldable pub happen : Event → r.Db → r.Db
  happen (touch user hold_until ttl) db = (touch_hold r user hold_until ttl db).1
  happen (release_due user expected now) db = (release_due_hold r user expected now db).1
  happen (release_generation user expected now) db =
      (release_hold_generation r user expected now db).1
  happen (release_flow user) db = Methods.release r config eval user db
  happen (enqueue_event user n ttl) db = (enqueue_script r user n ttl db).1
  happen (poll now limit) db = (due_users_script r schedule now limit db).1
  happen (claim user n ttl now) db = (claim_accept_script r user n ttl now db).1
  happen (acknowledge user n) db = (acknowledge_head r user n db).1
  happen (acknowledge_owned user n token) db = (acknowledge_head_if_lock_owned r user n token db).1
  happen (clear_due user token now) db = (clear_immediate_due r user token now db).1
  happen (lock user token ttl) db = (acquire_lock r user token ttl db).1
  happen (unlock user token) db = (release_lock_script r user token db).1
  happen (renew user token ttl) db = (renew_lock_script r user token ttl db).1
  happen (hold_lapses user) db = r.lapse (hold user) db
  happen (generation_lapses user) db = r.lapse (hold_generation user) db
  happen (dedupe_lapses user) db = r.lapse (dedupe user) db
  happen (lock_lapses user) db = r.lapse (flush_lock user) db

  unfoldable pub history : List Event → r.Db → r.Db
  history [] db = db
  history (e ∷ es) db = history es (happen e db)
