-- ===== src/Store/History/Invariant.antt =====
-- The invariants of a mailbox hold through every history.
use my_mtlwallet_bot.Prelude.{
  ℕ, ◌≡◌, refl, subst, sym, true, false, List, [], ◌∷◌, arith, is_some, length, ◌==◌, ap, ◌∙◌,
  Bool-cases, inl, inr,
}
use my_mtlwallet_bot.Notification.{BlockchainNotification}
use my_mtlwallet_bot.Redis.{Redis, pending, pending_ids}
use my_mtlwallet_bot.Store.Mailbox.{
  Mailbox, mailbox, touched, released, enqueued, is_known_to, clears_due,
}
use my_mtlwallet_bot.Store.Mailbox.Consistent.{
  IsConsistent, IsScheduled, appended-IsConsistent, accepted-IsConsistent, accepted-IsScheduled,
  acknowledged_head-IsConsistent, acknowledged-IsScheduled, touched-IsScheduled,
  released-IsScheduled, has_key, AllDistinct,
}
use my_mtlwallet_bot.Store.Methods.{StoreConfig}
use my_mtlwallet_bot.Store.Due.{Schedule, due_users_script}
use my_mtlwallet_bot.Store.Due.Repair.{due_users_script-IsMoved, due_users_script-IsScheduled}
use my_mtlwallet_bot.Store.History.{
  Event, release_flow, enqueue_event, poll, touch, release_due, release_generation, claim,
  acknowledge, acknowledge_owned, clear_due, lock, unlock, renew, hold_lapses, generation_lapses,
  dedupe_lapses, lock_lapses, happen, history,
}
use my_mtlwallet_bot.Store.History.Kept.{IsKept, IsAllowed, happen-keeps}

enqueued-IsConsistent :
    (n : BlockchainNotification) {m : Mailbox} → IsConsistent m → IsConsistent (enqueued n m).1
enqueued-IsConsistent n {m} c = elim (Bool-cases (is_known_to n m)) [
  | inl known ↦ rw known c
  | inr new ↦ rw new (appended-IsConsistent n c new)
]

IsConsistent-kept : IsKept (λ g. Unit) Unit IsConsistent
unfolding touched released
IsConsistent-kept = record {
  at_touch = λ until g m d c. record { waits = c.waits; distinct = c.distinct };
  at_drop = λ m e c. record { waits = c.waits; distinct = c.distinct };
  at_enqueue = λ n m e c. enqueued-IsConsistent n c;
  at_release = λ now m c. record { waits = c.waits; distinct = c.distinct };
  at_claim = λ n now m c. accepted-IsConsistent n now c;
  at_acknowledge = λ n m t c. acknowledged_head-IsConsistent n c t;
  at_clear = λ token now m t c. record { waits = c.waits; distinct = c.distinct };
  at_owner = λ o m c. record { waits = c.waits; distinct = c.distinct };
  at_hold_lapse = λ m c. record { waits = c.waits; distinct = c.distinct };
  at_generation_lapse = λ m c. record { waits = c.waits; distinct = c.distinct };
  at_dedupe_lapse = λ m c. record { waits = c.waits; distinct = c.distinct };
}

-- An entry that a clean-up may drop has no work behind it.
clears_due-idle :
    (token now : ℕ) (m : Mailbox)
    → clears_due token now m ≡ true
    → (is_some m.hold_until ≡ false) × (m.queue ≡ [])
clears_due-idle token now m t = (ground arith, empty m.queue (ground arith))
  where
    empty : (q : List BlockchainNotification) → (length q == 0) ≡ true → q ≡ []
    empty [] e = refl
    empty (n ∷ q) e = absurd (ground arith)

IsScheduled-kept : IsKept (λ g. Unit) ⊥ IsScheduled
IsScheduled-kept = record {
  at_touch = λ until g m d s. touched-IsScheduled until g m;
  at_drop = λ m e s. elim e [ ];
  at_enqueue = λ n m e s. elim e [ ];
  at_release = λ now m s. released-IsScheduled now m;
  at_claim = λ n now m s. accepted-IsScheduled n now s;
  at_acknowledge = λ n m t s. acknowledged-IsScheduled n s;
  at_clear = λ token now m t s.
      let (free, empty) = clears_due-idle token now m t in
      record { held = λ h. cc; pends = λ h. absurd (h empty) };
  at_owner = λ o m s. record { held = s.held; pends = s.pends };
  at_hold_lapse = λ m s. record { held = λ h. cc; pends = s.pends };
  at_generation_lapse = λ m s. record { held = s.held; pends = s.pends };
  at_dedupe_lapse = λ m s. record { held = s.held; pends = s.pends };
}

-- Neither `enqueue`, which appends without a schedule entry, nor `release`, which drops the entry
-- whatever waits; only tests call them.
abbrev pub IsServing : Event → Type 0
IsServing (release_flow user) = ⊥
IsServing (enqueue_event user n ttl) = ⊥
IsServing _ = Unit

abbrev pub AreServing : List Event → Type 0
AreServing [] = Unit
AreServing (e ∷ es) = IsServing e × AreServing es

module _ (r : Redis) (schedule : Schedule r) (config : StoreConfig) where
  polled-IsConsistent :
      (now limit : ℕ) (db : r.Db) (v : ℕ)
      → IsConsistent (mailbox (r.view db) v)
      → IsConsistent (mailbox (r.view (due_users_script r schedule now limit db).1) v)
  polled-IsConsistent now limit db v c =
      let moved = due_users_script-IsMoved r schedule now limit db in
      let same = sym (ap (λ f. f (pending v)) moved.lists) in
      record {
        waits = λ k. ap (λ f. f (pending_ids v) k) moved.sets ∙ c.waits k ∙ ap (has_key k) same;
        distinct = subst AllDistinct same c.distinct;
      }

  event-IsAllowed : (e : Event) (db : r.Db) → IsAllowed r (λ g. Unit) Unit e db
  event-IsAllowed (release_flow u) db = tt
  event-IsAllowed (enqueue_event u n ttl) db = tt
  event-IsAllowed (poll now limit) db = tt
  event-IsAllowed (touch u until ttl) db = tt
  event-IsAllowed (release_due u x now) db = tt
  event-IsAllowed (release_generation u x now) db = tt
  event-IsAllowed (claim u n ttl now) db = tt
  event-IsAllowed (acknowledge u n) db = tt
  event-IsAllowed (acknowledge_owned u n token) db = tt
  event-IsAllowed (clear_due u token now) db = tt
  event-IsAllowed (lock u token ttl) db = tt
  event-IsAllowed (unlock u token) db = tt
  event-IsAllowed (renew u token ttl) db = tt
  event-IsAllowed (hold_lapses u) db = tt
  event-IsAllowed (generation_lapses u) db = tt
  event-IsAllowed (dedupe_lapses u) db = tt
  event-IsAllowed (lock_lapses u) db = tt

  serving-IsAllowed : (e : Event) (db : r.Db) → IsServing e → IsAllowed r (λ g. Unit) ⊥ e db
  serving-IsAllowed (release_flow u) db s = s
  serving-IsAllowed (enqueue_event u n ttl) db s = s
  serving-IsAllowed (poll now limit) db s = tt
  serving-IsAllowed (touch u until ttl) db s = tt
  serving-IsAllowed (release_due u x now) db s = tt
  serving-IsAllowed (release_generation u x now) db s = tt
  serving-IsAllowed (claim u n ttl now) db s = tt
  serving-IsAllowed (acknowledge u n) db s = tt
  serving-IsAllowed (acknowledge_owned u n token) db s = tt
  serving-IsAllowed (clear_due u token now) db s = tt
  serving-IsAllowed (lock u token ttl) db s = tt
  serving-IsAllowed (unlock u token) db s = tt
  serving-IsAllowed (renew u token ttl) db s = tt
  serving-IsAllowed (hold_lapses u) db s = tt
  serving-IsAllowed (generation_lapses u) db s = tt
  serving-IsAllowed (dedupe_lapses u) db s = tt
  serving-IsAllowed (lock_lapses u) db s = tt

  module _ (v : ℕ) where
    -- Through every history of calls of the store's scripts and of release, enqueue and the poll
    -- among them, by any number of clients, and of lapses of keys, no two events in a user's
    -- queue have the same idempotency key, and the waiting keys are exactly the keys of the
    -- queue.
    pub history-IsConsistent :
        (es : List Event) (db : r.Db)
        → IsConsistent (mailbox (r.view db) v)
        → IsConsistent (mailbox (r.view (history r schedule config es db)) v)
    unfolding history
    history-IsConsistent [] db c = c
    history-IsConsistent (e ∷ es) db c = history-IsConsistent es (happen r schedule config e db) (
        happen-keeps IsConsistent-kept r schedule config polled-IsConsistent v e db
          (event-IsAllowed e db) c)

    -- Through every history of touches, conditional releases, claims, acknowledgements, polls,
    -- clean-ups and lock calls by any number of clients, and of lapses of keys, a user who has a
    -- hold or waiting events stays in the schedule of the delivery worker; the history has no
    -- call of enqueue, which appends without scheduling, and none of release, which unschedules
    -- whatever waits.
    pub history-IsScheduled :
        (es : List Event) (db : r.Db)
        → AreServing es
        → IsScheduled (mailbox (r.view db) v)
        → IsScheduled (mailbox (r.view (history r schedule config es db)) v)
    unfolding history
    history-IsScheduled [] db a s = s
    history-IsScheduled (e ∷ es) db a s =
        history-IsScheduled es (happen r schedule config e db) a.1 (
          happen-keeps IsScheduled-kept r schedule config
            (λ now limit d u. due_users_script-IsScheduled r schedule now limit d u) v e db
            (serving-IsAllowed e db a.0) s)
