-- ===== src/Coordinator.antt =====
-- bot/infrastructure/services/notification_coordinator.py: delivery under a per-user lock. A flush
-- runs against other clients of Redis: each `await` of its loop is a point at which they may act.
-- Each store call is its Lua script.
pub mod Queue
pub mod Fifo
pub mod Flush
pub mod Quiet
pub mod Drain
pub mod Flow
use my_mtlwallet_bot.Prelude.{
  ℕ, ◌+◌, Bool, true, false, not, Option, none, some, List, [], ◌∷◌, ◌++◌, ltb, if◌then◌else◌,
}
use my_mtlwallet_bot.Notification.{BlockchainNotification}
use my_mtlwallet_bot.Redis.{Redis}
use my_mtlwallet_bot.Store.Methods
use my_mtlwallet_bot.Store.Methods.{StoreConfig, eval}

-- How `sender.send_notification` ends within the delivery timeout; `cut_off` is the end of the
-- ownership budget during the send.
pub data Outcome : Type 0 where
  sent timed_out failed cut_off : Outcome

-- One pass of the delivery loop: what others do before each store call, what the lease event, the
-- clock and the sender show, and the fresh token of `_acknowledge_after_lease_loss`.
pub record Turn (S : Type 0) : Type 0 where
  pub before_peek : S → S
  pub before_renew : S → S
  pub before_hold : S → S
  pub during_send : S → S
  pub before_retry : S → S
  -- the second try: between its lock and its acknowledgement, and before its release
  pub after_relock : S → S
  pub before_unlock : S → S
  -- the end: before the hold is released, and before the schedule entry is dropped
  pub before_release_hold : S → S
  pub before_clear_due : S → S
  pub lease_lost_early : Bool
  pub lease_lost_late : Bool
  pub now : ℕ
  pub outcome : Outcome
  pub spare_token : ℕ

-- A flush among other clients: its passes, and what others do before its first read of the hold and
-- before it releases the lock.
pub record Course (S : Type 0) : Type 0 where
  pub before_gate : S → S
  pub passes : List (Turn S)
  pub before_release : S → S

-- What a flush has done so far.
pub record Progress (S : Type 0) : Type 0 where
  pub db : S
  pub delivered : List BlockchainNotification
  pub acknowledged : List BlockchainNotification
  pub badge_refresh_needed : Bool
  pub badge_refreshes : ℕ

pub data Step (S : Type 0) : Type 0 where
  stop : Progress S → Step S
  go_on : Option ℕ → Progress S → Step S

-- The tail of `_hold_allows_flush`: may delivery proceed, and an expired deadline to clean.
abbrev pub allows : Option ℕ → ℕ → Bool × Option ℕ
allows none now = (true, none)
allows (some hold_until) now = if ltb now hold_until then (false, none) else (true, some hold_until)

-- `if observed_expired_hold is not None: expired_hold_until = observed_expired_hold`
abbrev pub observed_or : Option ℕ → Option ℕ → Option ℕ
observed_or none expired = expired
observed_or (some observed) expired = some observed

module _ (r : Redis) (config : StoreConfig) (user : ℕ) where
  -- _hold_allows_flush
  unfoldable pub hold_allows_flush : ℕ → r.Db → Bool × Option ℕ
  hold_allows_flush now db = allows (Methods.hold_until r config eval user db) now

  -- The hold is not read at all under `ignore_hold`.
  abbrev pub gate : Bool → ℕ → r.Db → Bool × Option ℕ
  gate ignore_hold now db = if ignore_hold then (true, none) else hold_allows_flush now db

  -- _acknowledge_after_lease_loss
  unfoldable pub acknowledge_after_lease_loss :
      Turn r.Db → BlockchainNotification → r.Db → Bool × r.Db
  acknowledge_after_lease_loss turn n db =
      let token = turn.spare_token in
      let (acquired, locked) = Methods.acquire_lock r config eval user token db in
      let (acknowledged, popped) =
        Methods.acknowledge_if_lock_owned r config eval user n token (turn.after_relock locked) in
      let (released, db') =
        Methods.release_lock r config eval user token (turn.before_unlock popped) in
      if not acquired then (false, locked) else (acknowledged, db')

  module _ (ignore_hold : Bool) (token : ℕ) where
    -- After a send that succeeded: acknowledge, or try once more under a new lock.
    unfoldable pub settle_sent :
        Turn r.Db → BlockchainNotification → Option ℕ → Progress r.Db → Step r.Db
    settle_sent turn n expired p =
        let (acknowledged, db) =
          Methods.acknowledge_if_lock_owned r config eval user n token (turn.during_send p.db) in
        let (again, db') = acknowledge_after_lease_loss turn n (turn.before_retry db) in
        if acknowledged
        then go_on expired (record p {
          db = db;
          delivered = p.delivered ++ n ∷ [];
          acknowledged = p.acknowledged ++ n ∷ [];
          badge_refresh_needed = true;
        })
        else stop (record p {
          db = db';
          delivered = p.delivered ++ n ∷ [];
          acknowledged = p.acknowledged ++ (if again then n ∷ [] else []);
          badge_refreshes = p.badge_refreshes + (if again then 1 else 0);
        })

    abbrev pub settle :
        Outcome → Turn r.Db → BlockchainNotification → Option ℕ → Progress r.Db → Step r.Db
    settle sent turn n expired p = settle_sent turn n expired p
    settle timed_out turn n expired p = stop (record p { db = turn.during_send p.db })
    settle failed turn n expired p = stop (record p { db = turn.during_send p.db })
    settle cut_off turn n expired p =
        stop (record p { db = turn.during_send p.db; badge_refresh_needed = false })

    -- One pass of the loop, with the queue head in hand.
    unfoldable pub attempt :
        Turn r.Db → BlockchainNotification → Option ℕ → Progress r.Db → Step r.Db
    attempt turn n expired p =
        let (owned, renewed) =
          Methods.renew_lock r config eval user token (turn.before_renew p.db) in
        let held = turn.before_hold renewed in
        let (can_flush, observed) = gate ignore_hold turn.now held in
        if turn.lease_lost_early
        then stop p
        else if not owned
        then stop (record p { db = renewed })
        else if not can_flush
        then stop (record p { db = held })
        else if turn.lease_lost_late
        then stop (record p { db = held })
        else settle turn.outcome turn n (observed_or observed expired) (record p { db = held })

    -- What follows the loop once the queue is empty.
    unfoldable pub clean_up : Turn r.Db → Option ℕ → r.Db → r.Db
    clean_up turn none db =
        (Methods.clear_immediate_due_if_empty_and_lock_owned r config eval user token turn.now
          (turn.before_clear_due db)).1
    clean_up turn (some expired) db =
        let (released, db') =
          Methods.release_hold_if_unchanged r config eval user expired turn.now
            (turn.before_release_hold db) in
        (Methods.clear_immediate_due_if_empty_and_lock_owned r config eval user token turn.now
          (turn.before_clear_due db')).1

    -- The `while True` of `_flush_owned`. The list ends where the budget of
    -- `_flush_with_owned_lock` cuts the loop off; the badge flag is lost with the cancelled call.
    unfoldable pub deliver : List (Turn r.Db) → Option ℕ → Progress r.Db → Progress r.Db
    deliver [] expired p = record p { badge_refresh_needed = false }
    deliver (turn ∷ turns) expired p =
        let seen = record p { db = turn.before_peek p.db } in
        elim (Methods.peek r config eval user seen.db) [
          | none ↦ record seen { db = clean_up turn expired seen.db }
          | some n ↦ elim (attempt turn n expired seen) [
            | stop p' ↦ p'
            | go_on expired' p' ↦ deliver turns expired' p'
          ]
        ]

    -- _flush_owned
    unfoldable pub flush_owned : ℕ → Course r.Db → Progress r.Db → Progress r.Db
    flush_owned now course p =
        let seen = record p { db = course.before_gate p.db } in
        let (can_flush, expired) = gate ignore_hold now seen.db in
        if not can_flush then seen else deliver course.passes expired seen

    -- _flush_with_owned_lock: the lock is released however the delivery ended, and the badge is
    -- refreshed if something was acknowledged.
    unfoldable pub flush_with_owned_lock : ℕ → Course r.Db → r.Db → Progress r.Db
    flush_with_owned_lock now course db =
        let p = flush_owned now course (record {
          db = db;
          delivered = [];
          acknowledged = [];
          badge_refresh_needed = false;
          badge_refreshes = 0;
        }) in
        record p {
          db = (Methods.release_lock r config eval user token (course.before_release p.db)).1;
          badge_refreshes = p.badge_refreshes + (if p.badge_refresh_needed then 1 else 0);
        }

    -- flush
    unfoldable pub flush : ℕ → Course r.Db → r.Db → Option (Progress r.Db)
    flush now course db =
        let (acquired, locked) = Methods.acquire_lock r config eval user token db in
        if not acquired then none else some (flush_with_owned_lock now course locked)
