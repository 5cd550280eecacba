-- ===== src/Tests/Delivery.antt =====
-- The coordinator's theorems on concrete inputs.
use my_mtlwallet_bot.Prelude.{◌≡◌, refl, false, none, some, List, [], ◌∷◌, ◌++◌, arith, eq_refl}
use my_mtlwallet_bot.Notification.{BlockchainNotification, idempotency_key}
use my_mtlwallet_bot.Redis.{Keyspace, dedupe, flush_lock, pending}
use my_mtlwallet_bot.Redis.Memory.{empty, memory}
use my_mtlwallet_bot.Store.Mailbox.{mailbox, released}
use my_mtlwallet_bot.Store.Methods.{ok}
use my_mtlwallet_bot.Coordinator.{Progress, flush}
use my_mtlwallet_bot.Coordinator.Queue.{IsOrderly}
use my_mtlwallet_bot.Coordinator.Flush.{flush-IsOrderly}
use my_mtlwallet_bot.Coordinator.Drain.{flush-Emptied}
use my_mtlwallet_bot.Coordinator.Flow.{Acceptance, ignored, accept, touch, complete_flow}
use my_mtlwallet_bot.Coordinator.Flow.Accept.{accept-IsKept, accept-duplicate, acknowledged_by}
use my_mtlwallet_bot.Redis.Indexed.{Index, indexed, empty_index}
use my_mtlwallet_bot.Store.Scripts.{touch_hold}
use my_mtlwallet_bot.Store.History
use my_mtlwallet_bot.Store.History.{history}
use my_mtlwallet_bot.Tests.Polling.{schedule}
use my_mtlwallet_bot.Coordinator.Flow.Fence.{complete_flow-touch}
use my_mtlwallet_bot.Tests.{
  config, first_event, second_event, one_waiting, busy, quiet, busy-IsPoliteCourse,
  quiet-IsQuietCourse,
}

flush-IsOrderly_example :
    (p : Progress Keyspace) × (flush memory config 7 false 11 1000 busy one_waiting ≡ some p)
    × IsOrderly memory config 7 (first_event ∷ []) p
flush-IsOrderly_example =
    flush-IsOrderly memory config 7 false 11 1000 busy one_waiting refl busy-IsPoliteCourse

flush-Emptied_example :
    (p : Progress Keyspace) × (flush memory config 7 false 11 1000 quiet one_waiting ≡ some p)
    × ((p.delivered ≡ first_event ∷ [])
        × (p.acknowledged ≡ first_event ∷ [])
        × (p.db.lists (pending 7) ≡ [])
        × (p.db.strings (flush_lock 7) ≡ none))
flush-Emptied_example =
    flush-Emptied memory config 7 false none 11 1000 quiet one_waiting quiet-IsQuietCourse refl refl
      (λ e. refl) (omega arith)

accept-IsKept_example :
    let (reply, db) = accept memory config second_event 11 1000 busy one_waiting in
    (x : Acceptance Keyspace) × (reply ≡ ok x)
    × ((later : List BlockchainNotification) × (first_event ∷ second_event ∷ later
          ≡ acknowledged_by x ++ db.lists (pending 7)))
accept-IsKept_example =
    accept-IsKept memory config second_event 11 1000 busy busy-IsPoliteCourse one_waiting refl

-- A dialog of user 7 captures generation 1, user 8 touches, and user 7 starts another dialog.
abbrev dialogs : Index
dialogs =
    history indexed schedule config (History.touch 8 1050 60 ∷ [])
      (history indexed schedule config (History.touch 7 1060 60 ∷ []) empty_index)

complete_flow-touch_example :
    let ((until, context), db) = touch indexed config 7 1000 dialogs in
    let db' = history indexed schedule config (History.hold_lapses 7 ∷ []) db in
    (mailbox (complete_flow indexed config (some (7, some 1)) 7 1010 db').keyspace 7
      ≡ mailbox db'.keyspace 7)
    × (mailbox (complete_flow indexed config context 7 1010 db).keyspace 7
        ≡ released 1010 (mailbox db.keyspace 7))
unfolding history History.happen touch_hold
complete_flow-touch_example =
    complete_flow-touch indexed config 7 schedule (History.touch 7 1060 60 ∷ [])
      (History.touch 8 1050 60 ∷ []) (History.hold_lapses 7 ∷ []) 1 1000 1010 empty_index refl refl

-- User 7 was sent the first event a moment ago.
abbrev recently_seen : Keyspace
recently_seen = memory.sadd (dedupe 7) (idempotency_key first_event) empty

accept-duplicate_example :
    ((accept memory config first_event 11 1000 busy recently_seen).0 ≡ ok ignored)
    × (mailbox (accept memory config first_event 11 1000 busy recently_seen).1 7
        ≡ mailbox recently_seen 7)
accept-duplicate_example =
    accept-duplicate memory config first_event 11 1000 busy recently_seen
      (rw (eq_refl (idempotency_key first_event)) refl)
