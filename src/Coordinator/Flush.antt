-- ===== src/Coordinator/Flush.antt =====
-- A whole flush: the lock, the loop and the release.
use mathlib.Core.List.{append-nil}
use my_mtlwallet_bot.Prelude.{
  ℕ, ◌≡◌, refl, Bool, true, false, not, Option, none, some, List, [], is_some, Bool-cases, inl, inr,
  subst,
}
use my_mtlwallet_bot.Notification.{BlockchainNotification}
use my_mtlwallet_bot.Redis.{Redis}
use my_mtlwallet_bot.Store.Mailbox.{mailbox}
use my_mtlwallet_bot.Store.Methods
use my_mtlwallet_bot.Store.Methods.{StoreConfig, eval}
use my_mtlwallet_bot.Store.Refines.Locks.{acquire_lock-owner}
use my_mtlwallet_bot.Coordinator.Queue.{
  queue_of, IsPoliteCourse, act-Fifo, IsOrderly, IsSettled, Fifo-same, queue-release_lock,
  queue-acquire_lock,
}
use my_mtlwallet_bot.Coordinator.Fifo.{deliver-IsOrderly, IsSettled-IsOrderly}
use my_mtlwallet_bot.Coordinator.{Course, Progress, gate, flush_owned, flush_with_owned_lock, flush}

module _ (r : Redis) (config : StoreConfig) (user : ℕ) where
  module _ (ignore_hold : Bool) (token now : ℕ) (course : Course r.Db) where
    flush_owned-IsOrderly :
        (q : List BlockchainNotification) (p : Progress r.Db)
        → IsPoliteCourse r config user course
        → IsSettled r config user q p
        → IsOrderly r config user q (flush_owned r config user ignore_hold token now course p)
    unfolding flush_owned
    flush_owned-IsOrderly q p polite s =
        let seen = record p { db = course.before_gate p.db } in
        let t : IsSettled r config user q seen = record {
          fifo = act-Fifo r config user polite.at_gate s.fifo;
          sends = s.sends;
        } in
        elim (Bool-cases (gate r config user ignore_hold now seen.db).0) [
          | inl open_ ↦ rw open_ (
              deliver-IsOrderly r config user ignore_hold token q course.passes
                (gate r config user ignore_hold now seen.db).1 seen polite.in_passes t)
          | inr shut ↦ rw shut (IsSettled-IsOrderly r config user t)
        ]

    flush_with_owned_lock-IsOrderly :
        (db : r.Db)
        → IsPoliteCourse r config user course
        → IsOrderly r config user
            (queue_of r config user db)
            (flush_with_owned_lock r config user ignore_hold token now course db)
    unfolding flush_with_owned_lock
    flush_with_owned_lock-IsOrderly db polite =
        let p : Progress r.Db = record {
          db = db;
          delivered = [];
          acknowledged = [];
          badge_refresh_needed = false;
          badge_refreshes = 0;
        } in
        let s : IsSettled r config user (queue_of r config user db) p = record {
          fifo = record { added = []; split = append-nil _ };
          sends = refl;
        } in
        let o = flush_owned-IsOrderly (queue_of r config user db) p polite s in
        record {
          fifo =
              Fifo-same r config user (act-Fifo r config user polite.at_release o.fifo)
                (queue-release_lock r config user _ token);
          sends = o.sends;
        }

    abbrev owner_of : r.Db → Option ℕ
    owner_of db = (mailbox (r.view db) user).owner

    acquires :
        (db : r.Db)
        → (Methods.acquire_lock r config eval user token db).0 ≡ not (is_some (owner_of db))
    unfolding Methods.acquire_lock
    acquires db =
        let i = acquire_lock-owner r user db token (config.lock_ttl_seconds) in
        elim (Bool-cases (is_some (owner_of db))) [
          | inl t ↦ let j = rw t at i in rw t j.reply
          | inr f ↦ let j = rw f at i in rw f j.reply
        ]

    -- A flush that finds the lock taken answers None.
    pub flush-locked :
        (db : r.Db)
        → is_some (owner_of db) ≡ true
        → flush r config user ignore_hold token now course db ≡ none
    unfolding flush
    flush-locked db h = rw (acquires db, h) refl

    -- A flush that finds the lock free returns, and the queue it found, with what others appended
    -- meanwhile, is what it acknowledged, in order, and then what still waits; what it sent is
    -- what it acknowledged and at most one event more. Others may act before each call of the
    -- store that follows the taking of the lock, and during each send, in any way that leaves the
    -- events of this queue in place and only appends to it; the sender, the lease and the hold
    -- may stop the flush at any pass, and the ownership budget before a look at the head or in a
    -- send.
    pub flush-IsOrderly :
        (db : r.Db)
        → is_some (owner_of db) ≡ false
        → IsPoliteCourse r config user course
        → (p : Progress r.Db) × (flush r config user ignore_hold token now course db ≡ some p)
          × IsOrderly r config user (queue_of r config user db) p
    unfolding flush
    flush-IsOrderly db h polite =
        let locked = (Methods.acquire_lock r config eval user token db).1 in
        (
          flush_with_owned_lock r config user ignore_hold token now course locked,
          rw (acquires db, h) refl,
          subst
              (λ q.
                IsOrderly r config user q
                  (flush_with_owned_lock r config user ignore_hold token now course locked))
              (queue-acquire_lock r config user db token)
              (flush_with_owned_lock-IsOrderly locked polite),
        )
