-- ===== src/Tests.antt =====
-- Concrete inputs, on a Redis server in memory, for the theorems of the other modules.
mod Delivery
mod Storage
mod Services
mod Records
mod Throttling
mod Paying
pub mod Polling
pub mod Ciphers
mod Containers
mod Tables
mod Boxes
mod Notifiers
mod Webhooks
use mathlib.Core.List.{append-nil}
use my_mtlwallet_bot.Prelude.{
  ℕ, ◌+◌, ◌≡◌, refl, sym, Bool, true, false, Option, none, some, List, [], ◌∷◌, ◌++◌,
}
use my_mtlwallet_bot.Notification.{BlockchainNotification}
use my_mtlwallet_bot.Redis.{Redis, Keyspace, Key, pending}
use my_mtlwallet_bot.Redis.Memory.{empty, memory}
use my_mtlwallet_bot.Store.Methods.{StoreConfig}
use my_mtlwallet_bot.Coordinator.{Turn, Course, sent, timed_out}
use my_mtlwallet_bot.Coordinator.Queue.{IsPolite, IsPoliteCourse}
use my_mtlwallet_bot.Coordinator.Quiet.{IsQuiet, IsQuietCourse}

abbrev pub config : StoreConfig
config = record { hold_seconds = 60; lock_ttl_seconds = 30; dedupe_ttl_seconds = 600 }

abbrev pub first_event : BlockchainNotification
first_event = record {
  notification_id = "n-1";
  user_id = 7;
  event_type = "payment";
  message = "first";
  created_at = 1000;
  transaction_hash = "aa";
  event_index = 0;
  payload = [];
}

abbrev pub second_event : BlockchainNotification
second_event = record first_event { notification_id = "n-2"; message = "second"; event_index = 1 }

-- User 7 has one event waiting.
abbrev pub one_waiting : Keyspace
one_waiting = memory.rpush (pending 7) first_event empty

abbrev same : Keyspace → Keyspace
same db = db

-- A pass that sends, while another event arrives.
abbrev busy_turn : Turn Keyspace
busy_turn = record {
  before_peek = same;
  before_renew = same;
  before_hold = same;
  during_send = memory.rpush (pending 7) second_event;
  before_retry = same;
  after_relock = same;
  before_unlock = same;
  before_release_hold = same;
  before_clear_due = same;
  lease_lost_early = false;
  lease_lost_late = false;
  now = 1000;
  outcome = sent;
  spare_token = 12;
}

abbrev quiet_turn : Turn Keyspace
quiet_turn = record busy_turn { during_send = same }

busy_turn-IsPolite : IsPolite memory config 7 busy_turn
busy_turn-IsPolite = record {
  at_peek = λ db. ([], sym (append-nil _));
  at_renew = λ db. ([], sym (append-nil _));
  at_hold = λ db. ([], sym (append-nil _));
  at_send = λ db. (second_event ∷ [], refl);
  at_retry = λ db. ([], sym (append-nil _));
  at_relock = λ db. ([], sym (append-nil _));
  at_unlock = λ db. ([], sym (append-nil _));
  at_release_hold = λ db. ([], sym (append-nil _));
  at_clear_due = λ db. ([], sym (append-nil _));
}

quiet_turn-IsQuiet : IsQuiet memory config 7 false none quiet_turn
quiet_turn-IsQuiet = record {
  at_peek = λ db. refl;
  at_renew = λ db. refl;
  at_hold = λ db. refl;
  at_send = λ db. refl;
  at_release_hold = λ db. refl;
  at_clear_due = λ db. refl;
  lease_early = refl;
  lease_late = refl;
  sends = refl;
  free = λ e. refl;
}

-- Two passes, with another event before the hold is read, in each send and before the release.
abbrev pub busy : Course Keyspace
busy = record {
  before_gate = memory.rpush (pending 7) second_event;
  passes = busy_turn ∷ busy_turn ∷ [];
  before_release = memory.rpush (pending 7) second_event;
}

abbrev pub quiet : Course Keyspace
quiet = record { before_gate = same; passes = quiet_turn ∷ quiet_turn ∷ []; before_release = same }

pub busy-IsPoliteCourse : IsPoliteCourse memory config 7 busy
busy-IsPoliteCourse = record {
  at_gate = λ db. (second_event ∷ [], refl);
  in_passes = (busy_turn-IsPolite, (busy_turn-IsPolite, tt));
  at_release = λ db. (second_event ∷ [], refl);
}

pub quiet-IsQuietCourse : IsQuietCourse memory config 7 false none quiet
quiet-IsQuietCourse = record {
  at_gate = λ db. refl;
  in_passes = (quiet_turn-IsQuiet, (quiet_turn-IsQuiet, tt));
  at_release = λ db. refl;
}
