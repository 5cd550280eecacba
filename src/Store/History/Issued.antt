-- ===== src/Store/History/Issued.antt =====
-- The generations that holds have through a history: none above the sequence, and none that is
-- not newer than a number drawn before.
use my_mtlwallet_bot.Prelude.{
  ℕ, ◌≤◌, ◌<◌, ◌≡◌, refl, sym, subst, ap, ◌∙◌, some, List, [], ◌∷◌, arith, Bool-cases, inl, inr,
}
use my_mtlwallet_bot.Notification.{BlockchainNotification}
use my_mtlwallet_bot.Redis.{Redis, hold_generation, hold_generation_sequence, next_number}
use my_mtlwallet_bot.Store.Scripts.{is_active}
use my_mtlwallet_bot.Store.Mailbox.{
  Mailbox, mailbox, touched, released, is_known_to, appended, enqueued, accepted, acknowledged,
}
use my_mtlwallet_bot.Store.Methods.{StoreConfig}
use my_mtlwallet_bot.Store.Due.{Schedule, due_users_script}
use my_mtlwallet_bot.Store.Due.Repair.{due_users_script-IsMoved}
use my_mtlwallet_bot.Store.History.{
  Event, release_flow, enqueue_event, poll, touch, release_due, release_generation, claim,
  acknowledge, acknowledge_owned, clear_due, lock, unlock, renew, hold_lapses, generation_lapses,
  dedupe_lapses, lock_lapses, happen, history,
}
use my_mtlwallet_bot.Store.History.Kept.{IsKept, IsAllowed, happen-keeps}
use my_mtlwallet_bot.Store.History.Sequence.{
  next_number-above, level, touch_hold-sequence, happen-level,
}

-- What a property of generations alone needs.
module _ (Q : ℕ → Type 0) where
  -- Every generation that a mailbox has is in Q.
  abbrev pub IsDrawn : Mailbox → Type 0
  IsDrawn m = (g : ℕ) → m.generation ≡ some g → Q g

  enqueued-generation :
      (n : BlockchainNotification) (m : Mailbox) → (enqueued n m).1.generation ≡ m.generation
  unfolding appended
  enqueued-generation n m = elim (Bool-cases (is_known_to n m)) [
    | inl known ↦ rw known refl
    | inr new ↦ rw new refl
  ]

  accepted-generation :
      (n : BlockchainNotification) (now : ℕ) (m : Mailbox)
      → (accepted n now m).1.generation ≡ m.generation
  unfolding accepted appended
  accepted-generation n now m = elim (Bool-cases (is_known_to n m)) [
    | inl known ↦ rw known refl
    | inr new ↦ rw new (elim (Bool-cases (is_active m.hold_until now)) [
      | inl on ↦ rw on refl
      | inr off ↦ rw off refl
    ])
  ]

  IsDrawn-kept : IsKept Q Unit IsDrawn
  unfolding touched released acknowledged
  IsDrawn-kept = record {
    at_touch = λ until g m d p k e. let same : g ≡ k = cc e in subst Q same d;
    at_drop = λ m e p k h. absurd (cc h);
    at_enqueue = λ n m e p k h. p k (sym (enqueued-generation n m) ∙ h);
    at_release = λ now m p k h. absurd (cc h);
    at_claim = λ n now m p k h. p k (sym (accepted-generation n now m) ∙ h);
    at_acknowledge = λ n m t p. p;
    at_clear = λ token now m t p. p;
    at_owner = λ o m p. p;
    at_hold_lapse = λ m p. p;
    at_generation_lapse = λ m p k h. absurd (cc h);
    at_dedupe_lapse = λ m p. p;
  }

module _ (r : Redis) (schedule : Schedule r) (config : StoreConfig) where
  IsDrawn-polled :
      (Q : ℕ → Type 0) (now limit : ℕ) (db : r.Db) (v : ℕ)
      → IsDrawn Q (mailbox (r.view db) v)
      → IsDrawn Q (mailbox (r.view (due_users_script r schedule now limit db).1) v)
  IsDrawn-polled Q now limit db v p g h = p g (
      ap (λ f. f (hold_generation v))
        (sym (due_users_script-IsMoved r schedule now limit db).strings)
      ∙ h)

  -- What a touch draws.
  drawn-IsAllowed :
      (Q : ℕ → Type 0) (e : Event) (db : r.Db)
      → Q (next_number ((r.view db).strings hold_generation_sequence))
      → IsAllowed r Q Unit e db
  drawn-IsAllowed Q (release_flow u) db q = tt
  drawn-IsAllowed Q (enqueue_event u n ttl) db q = tt
  drawn-IsAllowed Q (poll now limit) db q = tt
  drawn-IsAllowed Q (touch u until ttl) db q = q
  drawn-IsAllowed Q (release_due u x now) db q = tt
  drawn-IsAllowed Q (release_generation u x now) db q = tt
  drawn-IsAllowed Q (claim u n ttl now) db q = tt
  drawn-IsAllowed Q (acknowledge u n) db q = tt
  drawn-IsAllowed Q (acknowledge_owned u n token) db q = tt
  drawn-IsAllowed Q (clear_due u token now) db q = tt
  drawn-IsAllowed Q (lock u token ttl) db q = tt
  drawn-IsAllowed Q (unlock u token) db q = tt
  drawn-IsAllowed Q (renew u token ttl) db q = tt
  drawn-IsAllowed Q (hold_lapses u) db q = tt
  drawn-IsAllowed Q (generation_lapses u) db q = tt
  drawn-IsAllowed Q (dedupe_lapses u) db q = tt
  drawn-IsAllowed Q (lock_lapses u) db q = tt

  -- Numbers above a given one stay above it: the sequence does not go back.
  pub history-above :
      (old : ℕ) (v : ℕ) (es : List Event) (db : r.Db)
      → old ≤ level r db
      → IsDrawn (λ g. old < g) (mailbox (r.view db) v)
      → IsDrawn (λ g. old < g) (mailbox (r.view (history r schedule config es db)) v)
  unfolding history
  history-above old v [] db le p = p
  history-above old v (e ∷ es) db le p =
      history-above old v es (happen r schedule config e db)
        (omega (arith, happen-level r schedule config e db))
        (happen-keeps (IsDrawn-kept (λ g. old < g)) r schedule config
          (IsDrawn-polled (λ g. old < g)) v e db
          (drawn-IsAllowed (λ g. old < g) e db
            (omega (arith, next_number-above ((r.view db).strings hold_generation_sequence))))
          p)

  IsDrawn-weaker :
      (a b v : ℕ) (db : r.Db)
      → a ≤ b
      → IsDrawn (λ g. g ≤ a) (mailbox (r.view db) v)
      → IsDrawn (λ g. g ≤ b) (mailbox (r.view db) v)
  IsDrawn-weaker a b v db le p g h = let q = p g h in omega arith

  touch-IsAllowed :
      (e : Event) (db : r.Db)
      → IsAllowed r (λ g. g ≤ level r (happen r schedule config e db)) Unit e db
  unfolding happen
  touch-IsAllowed (release_flow u) db = tt
  touch-IsAllowed (enqueue_event u n ttl) db = tt
  touch-IsAllowed (poll now limit) db = tt
  touch-IsAllowed (touch u until ttl) db =
      let s = touch_hold-sequence r u until ttl db in rw s (omega arith)
  touch-IsAllowed (release_due u x now) db = tt
  touch-IsAllowed (release_generation u x now) db = tt
  touch-IsAllowed (claim u n ttl now) db = tt
  touch-IsAllowed (acknowledge u n) db = tt
  touch-IsAllowed (acknowledge_owned u n token) db = tt
  touch-IsAllowed (clear_due u token now) db = tt
  touch-IsAllowed (lock u token ttl) db = tt
  touch-IsAllowed (unlock u token) db = tt
  touch-IsAllowed (renew u token ttl) db = tt
  touch-IsAllowed (hold_lapses u) db = tt
  touch-IsAllowed (generation_lapses u) db = tt
  touch-IsAllowed (dedupe_lapses u) db = tt
  touch-IsAllowed (lock_lapses u) db = tt

  -- No hold has a generation above the sequence.
  pub history-below :
      (v : ℕ) (es : List Event) (db : r.Db)
      → IsDrawn (λ g. g ≤ level r db) (mailbox (r.view db) v)
      → let db' = history r schedule config es db in
        IsDrawn (λ g. g ≤ level r db') (mailbox (r.view db') v)
  unfolding history
  history-below v [] db p = p
  history-below v (e ∷ es) db p =
      let next = happen r schedule config e db in
      history-below v es next (
        happen-keeps (IsDrawn-kept (λ g. g ≤ level r next)) r schedule config
          (IsDrawn-polled (λ g. g ≤ level r next)) v e db (touch-IsAllowed e db)
          (IsDrawn-weaker (level r db) (level r next) v db (happen-level r schedule config e db) p))
