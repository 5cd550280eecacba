-- ===== src/Store/Mailbox.antt =====
-- The abstract view of bot/infrastructure/services/notification_redis_store.py: what the keys of
-- one user hold, and each operation as the docstrings promise it, with no keys and no commands.
pub mod Consistent
use text.Mathlib.Text.{◌==◌ as str_eq}
use my_mtlwallet_bot.Prelude.{
  ℕ, String, Bool, true, false, ◌||◌, ◌&&◌, not, Option, none, some, List, [], ◌∷◌, ◌++◌, ltb, leb,
  ◌==◌, if◌then◌else◌, is_some, length, head?, tail,
}
use my_mtlwallet_bot.Notification.{BlockchainNotification, idempotency_key, same_json}
use my_mtlwallet_bot.Redis.{
  Keyspace, hold, hold_generation, pending, dedupe, pending_ids, flush_lock, due, with_member,
}
use my_mtlwallet_bot.Store.Scripts.{
  Accepted, duplicate, queued, direct, later_of, holds_number, is_head, is_active, is_due,
}

pub record Mailbox : Type 0 where
  pub hold_until : Option ℕ
  pub generation : Option ℕ
  pub queue : List BlockchainNotification
  -- the keys that were seen within the dedupe window, and those of the queue
  pub seen : String → Bool
  pub waiting : String → Bool
  pub owner : Option ℕ
  pub due_at : Option ℕ

abbrev pub mailbox : Keyspace → ℕ → Mailbox
mailbox ks u = record {
  hold_until = ks.strings (hold u);
  generation = ks.strings (hold_generation u);
  queue = ks.lists (pending u);
  seen = ks.sets (dedupe u);
  waiting = ks.sets (pending_ids u);
  owner = ks.strings (flush_lock u);
  due_at = ks.scores due u;
}

-- The hold never moves back, and its deadline is the user's place in the schedule.
unfoldable pub touched : ℕ → ℕ → Mailbox → Mailbox
touched hold_until generation m =
    let until = later_of m.hold_until hold_until in
    record m { hold_until = some until; generation = some generation; due_at = some until }

-- Pending work is scheduled for now, an empty queue leaves the schedule.
unfoldable pub released : ℕ → Mailbox → Mailbox
released now m = record m {
  hold_until = none;
  generation = none;
  due_at = if ltb 0 (length m.queue) then some now else none;
}

abbrev pub is_known_to : BlockchainNotification → Mailbox → Bool
is_known_to n m = m.seen (idempotency_key n) || m.waiting (idempotency_key n)

unfoldable pub appended : BlockchainNotification → Mailbox → Mailbox
appended n m = record m {
  queue = m.queue ++ n ∷ [];
  seen = with_member m.seen (idempotency_key n) true;
  waiting = with_member m.waiting (idempotency_key n) true;
}

abbrev pub enqueued : BlockchainNotification → Mailbox → Bool × Mailbox
enqueued n m = if is_known_to n m then (false, m) else (true, appended n m)

unfoldable pub accepted : BlockchainNotification → ℕ → Mailbox → Accepted × Mailbox
accepted n now m =
    if is_known_to n m
    then (duplicate, m)
    else if is_active m.hold_until now
    then (queued, appended n m)
    else (direct, record (appended n m) { due_at = some now })

unfoldable pub acknowledged : BlockchainNotification → Mailbox → Mailbox
acknowledged n m = record m {
  queue = tail m.queue;
  waiting = with_member m.waiting (idempotency_key n) false;
}

-- A schedule entry leaves only with its work: the lock is owned, the queue and the hold are gone.
abbrev pub clears_due : ℕ → ℕ → Mailbox → Bool
clears_due token now m =
    holds_number m.owner token
    && (length m.queue == 0)
    && not (is_some m.hold_until)
    && is_due m.due_at now
