-- ===== src/Tests/Storage.antt =====
-- The store's theorems on concrete inputs, by Lua and by the WATCH loop.
use Prim.{absurd}
use my_mtlwallet_bot.Prelude.{◌≡◌, refl, true, false, some, List, [], ◌∷◌}
use my_mtlwallet_bot.Redis.{Keyspace, hold, hold_generation, hold_generation_sequence, flush_lock}
use my_mtlwallet_bot.Redis.Memory.{memory}
use my_mtlwallet_bot.Store.Scripts.{queued}
use my_mtlwallet_bot.Store.Mailbox.{mailbox, touched, released, accepted, appended}
use my_mtlwallet_bot.Store.Mailbox.Consistent.{IsConsistent, IsScheduled}
use my_mtlwallet_bot.Store.Refines.{Implements}
use my_mtlwallet_bot.Store.Transaction.{effect_point}
use my_mtlwallet_bot.Store.Fallback.{claim_accept_without_lua}
use my_mtlwallet_bot.Store.Methods.{
  ok, Server, eval, no_eval, taken_at, touch_with_generation, release_due_hold_if_unchanged,
  release_hold_generation_if_unchanged, enqueue, claim_accept, acknowledge_if_lock_owned,
  release_lock,
}
use my_mtlwallet_bot.Store.Methods.Correct.{
  touch_with_generation-touched, release_due_hold_if_unchanged-released,
  release_hold_generation_if_unchanged-released, enqueue-appended, claim_accept-accepted,
  acknowledge_if_lock_owned-acknowledged, release_lock-owner,
}
use my_mtlwallet_bot.Redis.Indexed.{indexed, empty_index}
use my_mtlwallet_bot.Tests.Polling.{schedule}
use my_mtlwallet_bot.Store.Transaction.{SameView}
use my_mtlwallet_bot.Store.History.{Event, touch, claim, hold_lapses, lock, poll, history}
use my_mtlwallet_bot.Store.History
use my_mtlwallet_bot.Store.History.Invariant.{history-IsConsistent, history-IsScheduled}
use my_mtlwallet_bot.Tests.{config, first_event, second_event, one_waiting}

-- A server without EVAL on which user 7 starts a hold during the first pass, which EXEC aborts.
abbrev starts_hold : Keyspace → Keyspace
starts_hold db = memory.set (hold 7) 1060 db

abbrev disturbed : Server Keyspace
disturbed = no_eval (record { after = starts_hold; aborted = true } ∷ [])

claim_accept-accepted_example :
    Implements memory 7
      (starts_hold one_waiting)
      (claim_accept memory config disturbed 7 second_event 1000 one_waiting)
      (ok queued, appended second_event (mailbox (starts_hold one_waiting) 7))
unfolding taken_at accepted appended effect_point claim_accept_without_lua
claim_accept-accepted_example =
    claim_accept-accepted memory config disturbed 7 one_waiting second_event 1000 refl (λ e. cc, tt)

touch_with_generation-touched_example :
    Implements memory 7 one_waiting
      (touch_with_generation memory config eval 7 1000 one_waiting)
      ((1060, 1), touched 1060 1 (mailbox one_waiting 7))
    × ((touch_with_generation memory config eval 7 1000 one_waiting).1.strings
          hold_generation_sequence
        ≡ some 1)
unfolding taken_at
touch_with_generation-touched_example =
    touch_with_generation-touched memory config eval 7 one_waiting 1000 tt

abbrev held : Keyspace
held = memory.set (hold_generation 7) 4 (memory.set (hold 7) 1060 one_waiting)

release_due_hold_if_unchanged-released_example :
    Implements memory 7 held
      (release_due_hold_if_unchanged memory config eval 7 1060 1070 held)
      (true, released 1070 (mailbox held 7))
unfolding taken_at
release_due_hold_if_unchanged-released_example =
    release_due_hold_if_unchanged-released memory config eval 7 held 1060 1070 tt

release_hold_generation_if_unchanged-released_example :
    Implements memory 7 held
      (release_hold_generation_if_unchanged memory config eval 7 3 1070 held)
      (false, mailbox held 7)
unfolding taken_at
release_hold_generation_if_unchanged-released_example =
    release_hold_generation_if_unchanged-released memory config eval 7 held 3 1070 tt

enqueue-appended_example :
    Implements memory 7 one_waiting
      (enqueue memory config eval 7 second_event one_waiting)
      (ok true, appended second_event (mailbox one_waiting 7))
unfolding taken_at
enqueue-appended_example = enqueue-appended memory config eval 7 one_waiting second_event refl tt

abbrev locked : Keyspace
locked = memory.set (flush_lock 7) 5 one_waiting

acknowledge_if_lock_owned-acknowledged_example :
    Implements memory 7 locked
      (acknowledge_if_lock_owned memory config eval 7 first_event 6 locked)
      (false, mailbox locked 7)
unfolding taken_at
acknowledge_if_lock_owned-acknowledged_example =
    acknowledge_if_lock_owned-acknowledged memory config eval 7 locked first_event 6 tt

release_lock-owner_example :
    ((release_lock memory config eval 7 5 locked).0 ≡ true)
    × SameView (release_lock memory config eval 7 5 locked).1 (memory.del (flush_lock 7) locked)
unfolding taken_at
release_lock-owner_example = release_lock-owner memory config eval 7 locked 5 tt

-- An event arrives for an idle user, and the hold of another dialog starts and lapses; a poll and
-- an enqueue come after.
abbrev some_events : List Event
some_events =
    claim 7 first_event 600 1000 ∷ touch 7 1060 60 ∷ hold_lapses 7 ∷ lock 7 5 30 ∷ poll 1010 4 ∷ []

history-IsConsistent_example : IsConsistent (
    mailbox
      (history indexed schedule config
        (History.enqueue_event 7 second_event 600 ∷ some_events)
        empty_index).keyspace
      7)
history-IsConsistent_example =
    history-IsConsistent indexed schedule config 7
      (History.enqueue_event 7 second_event 600 ∷ some_events) empty_index
      (record { waits = λ k. refl; distinct = tt })

history-IsScheduled_example :
    IsScheduled (mailbox (history indexed schedule config some_events empty_index).keyspace 7)
history-IsScheduled_example =
    history-IsScheduled indexed schedule config 7 some_events empty_index
      (tt, (tt, (tt, (tt, (tt, tt))))) (record { held = λ h. cc; pends = λ h. absurd (h refl) })
