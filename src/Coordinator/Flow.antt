-- ===== src/Coordinator/Flow.antt =====
-- bot/infrastructure/services/notification_coordinator.py: accepting an event, and the fence that
-- lets a dialog release only the hold that it saw. The task-local `_flow_generation_context` is an
-- argument: a user and the generation captured.
pub mod Fence
pub mod Accept
use my_mtlwallet_bot.Prelude.{
  ℕ, ◌+◌, Bool, true, false, Option, none, some, List, ltb, ◌==◌, ◌||◌, leb, if◌then◌else◌,
}
use my_mtlwallet_bot.Notification.{BlockchainNotification}
use my_mtlwallet_bot.Redis.{Redis}
use my_mtlwallet_bot.Store.Scripts.{Accepted, duplicate, queued, direct}
use my_mtlwallet_bot.Store.Methods
use my_mtlwallet_bot.Store.Methods.{Result, ok, value_error, StoreConfig, eval}
use my_mtlwallet_bot.Coordinator.{Course, Progress, flush}

-- `_flow_generation_context`
abbrev pub Context : Type 0
Context = Option (ℕ × Option ℕ)

-- How `accept` ends.
pub data Acceptance (S : Type 0) : Type 0 where
  ignored : Acceptance S
  badge_refreshed : Acceptance S
  flushed : Option (Progress S) → Acceptance S

-- `__init__`, with whole seconds: the interval is compared as three times itself with the TTL.
-- `heartbeat` is the argument `heartbeat_interval`; left out, it is a third of the TTL.
unfoldable pub heartbeat_fits : ℕ → Option ℕ → Bool
heartbeat_fits lock_ttl_seconds none = ltb 0 lock_ttl_seconds
heartbeat_fits lock_ttl_seconds (some heartbeat) =
    if leb lock_ttl_seconds 0
    then false
    else if ltb 0 heartbeat
    then ltb heartbeat lock_ttl_seconds
    else false

module _ (r : Redis) (config : StoreConfig) where
  -- touch
  unfoldable pub touch : ℕ → ℕ → r.Db → (ℕ × Context) × r.Db
  touch user now db =
      let ((hold_until, generation), db') =
        Methods.touch_with_generation r config eval user now db in
      ((hold_until, some (user, some generation)), db')

  generation_of : Option (ℕ × ℕ) → Option ℕ
  generation_of none = none
  generation_of (some (until, generation)) = some generation

  -- capture_flow_generation
  unfoldable pub capture_flow_generation : ℕ → r.Db → Context
  unfolding generation_of
  capture_flow_generation user db =
      some (user, generation_of (Methods.hold_snapshot r config eval user db))

  -- _release_flow_generation
  unfoldable pub release_flow_generation : ℕ → ℕ → ℕ → r.Db → r.Db
  release_flow_generation user observed_generation now db =
      (Methods.release_hold_generation_if_unchanged r config eval user observed_generation now db).1

  -- complete_flow
  unfoldable pub complete_flow : Context → ℕ → ℕ → r.Db → r.Db
  complete_flow none user now db = db
  complete_flow (some (owner, none)) user now db = db
  complete_flow (some (owner, some generation)) user now db =
      if owner == user then release_flow_generation user generation now db else db

  -- complete_current_flow; others act between its two calls
  unfoldable pub complete_current_flow : ℕ → ℕ → (r.Db → r.Db) → r.Db → r.Db
  complete_current_flow user now between db = elim (Methods.hold_snapshot r config eval user db) [
    | none ↦ db
    | some (until, generation) ↦ release_flow_generation user generation now (between db)
  ]

  after_claim :
      BlockchainNotification → ℕ → ℕ → Course r.Db → Accepted → r.Db → Acceptance r.Db × r.Db
  after_claim n token now course duplicate db = (ignored, db)
  after_claim n token now course queued db = (badge_refreshed, db)
  after_claim n token now course direct db =
      elim (flush r config n.user_id false token now course db) [
        | none ↦ (flushed none, db)
        | some p ↦ (flushed (some p), p.db)
      ]

  -- accept; `course` is that of the flush it makes
  unfoldable pub accept :
      BlockchainNotification → ℕ → ℕ → Course r.Db → r.Db → Result (Acceptance r.Db) × r.Db
  unfolding after_claim
  accept n token now course db =
      let (reply, claimed) = Methods.claim_accept r config eval n.user_id n now db in
      elim reply [
        | value_error ↦ (value_error, claimed)
        | ok result ↦
            (let (acceptance, db') = after_claim n token now course result claimed in
              (ok acceptance, db'))
      ]
