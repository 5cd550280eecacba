-- ===== src/Store/History/Kept.antt =====
-- A property of mailboxes that every event keeps holds through every history.
use native.Mathlib.Decide.{ℕ_discrete}
use my_mtlwallet_bot.Prelude.{
  ℕ, ◌≡◌, refl, subst, sym, Bool, true, false, Option, none, some, if◌then◌else◌, is_some, head?,
  Bool-cases, inl, inr,
}
use my_mtlwallet_bot.Notification.{BlockchainNotification}
use my_mtlwallet_bot.Redis.{Redis, hold_generation_sequence, next_number}
use my_mtlwallet_bot.Store.Methods.{StoreConfig}
use my_mtlwallet_bot.Store.Due.{Schedule, due_users_script}
use my_mtlwallet_bot.Store.Scripts.{is_head, holds_number}
use my_mtlwallet_bot.Store.Mailbox.{
  Mailbox, mailbox, touched, released, enqueued, accepted, acknowledged, clears_due,
}
use my_mtlwallet_bot.Store.Refines.{
  Implements, touch_hold-touched, release_due_hold-released, release_hold_generation-released,
  claim_accept_script-accepted, acknowledge_head-acknowledged,
  acknowledge_head_if_lock_owned-acknowledged, release_lock_script-owner, enqueue_script-appended,
}
use my_mtlwallet_bot.Store.Refines.Locks.{
  acquire_lock-owner, renew_lock_script-same, clear_immediate_due-clears, hold_lapses-none,
  generation_lapses-none, dedupe_lapses-none, lock_lapses-none, release-dropped,
}
use my_mtlwallet_bot.Store.History.{
  Event, release_flow, enqueue_event, poll, touch, release_due, release_generation, claim,
  acknowledge, acknowledge_owned, clear_due, lock, unlock, renew, hold_lapses, generation_lapses,
  dedupe_lapses, lock_lapses, happen,
}

-- What a property of mailboxes needs, to hold through the events that are allowed: a touch that
-- draws a number in `D`, and enqueue and release where `E` holds.
pub record IsKept (D : ℕ → Type 0) (E : Type 0) (P : Mailbox → Type 0) : Type 0 where
  pub at_touch : (until g : ℕ) (m : Mailbox) → D g → P m → P (touched until g m)
  pub at_drop :
      (m : Mailbox) → E → P m → P (record m { hold_until = none; generation = none; due_at = none })
  pub at_enqueue : (n : BlockchainNotification) (m : Mailbox) → E → P m → P (enqueued n m).1
  pub at_release : (now : ℕ) (m : Mailbox) → P m → P (released now m)
  pub at_claim : (n : BlockchainNotification) (now : ℕ) (m : Mailbox) → P m → P (accepted n now m).1
  pub at_acknowledge :
      (n : BlockchainNotification) (m : Mailbox)
      → is_head (head? m.queue) n ≡ true
      → P m
      → P (acknowledged n m)
  pub at_clear :
      (token now : ℕ) (m : Mailbox)
      → clears_due token now m ≡ true
      → P m
      → P (record m { due_at = none })
  pub at_owner : (o : Option ℕ) (m : Mailbox) → P m → P (record m { owner = o })
  pub at_hold_lapse : (m : Mailbox) → P m → P (record m { hold_until = none })
  pub at_generation_lapse : (m : Mailbox) → P m → P (record m { generation = none })
  pub at_dedupe_lapse : (m : Mailbox) → P m → P (record m { seen = λ k. false })

-- The events that a property asks for.
abbrev pub IsAllowed : (r : Redis) → (ℕ → Type 0) → Type 0 → Event → r.Db → Type 0
IsAllowed r D E (touch u until ttl) db =
    D (next_number ((r.view db).strings hold_generation_sequence))
IsAllowed r D E (release_flow u) db = E
IsAllowed r D E (enqueue_event u n ttl) db = E
IsAllowed r D E _ db = Unit

module _ {D : ℕ → Type 0} {E : Type 0} {P : Mailbox → Type 0} (kept : IsKept D E P) (r : Redis)
    (schedule : Schedule r) (config : StoreConfig)
    (polled : (now limit : ℕ) (db : r.Db) (v : ℕ)
      → P (mailbox (r.view db) v)
      → P (mailbox (r.view (due_users_script r schedule now limit db).1) v))
    (v : ℕ) where
  keeps :
      {u : ℕ} {db : r.Db} {A : Type 0} {x : A × r.Db} {spec : A × Mailbox}
      → Implements r u db x spec
      → (P (mailbox (r.view db) u) → P spec.1)
      → P (mailbox (r.view db) v)
      → P (mailbox (r.view x.1) v)
  keeps {u} {db} {x = x} i step h = elim (ℕ_discrete v u) [
    | yes e ↦
        subst (λ w. P (mailbox (r.view x.1) w)) (sym e)
          (subst P (sym i.own) (step (subst (λ w. P (mailbox (r.view db) w)) e h)))
    | no ne ↦ subst P (sym (i.others v ne)) h
  ]

  -- The same for an event that first tests the mailbox.
  keeps-if :
      (b : Bool) {u : ℕ} {db : r.Db} {A : Type 0} {x : A × r.Db} (y z : A × Mailbox)
      → Implements r u db x (if b then y else z)
      → (b ≡ true → P (mailbox (r.view db) u) → P y.1)
      → (b ≡ false → P (mailbox (r.view db) u) → P z.1)
      → P (mailbox (r.view db) v)
      → P (mailbox (r.view x.1) v)
  keeps-if true y z i t f = keeps i (t refl)
  keeps-if false y z i t f = keeps i (f refl)

  pub happen-keeps :
      (e : Event) (db : r.Db)
      → IsAllowed r D E e db
      → P (mailbox (r.view db) v)
      → P (mailbox (r.view (happen r schedule config e db)) v)
  unfolding happen
  happen-keeps (touch u until ttl) db d =
      keeps (touch_hold-touched r u db until ttl) (kept.at_touch _ _ _ d)
  happen-keeps (release_due u expected now) db d =
      keeps-if (holds_number (mailbox (r.view db) u).hold_until expected) _ _
        (release_due_hold-released r u db expected now) (λ _. kept.at_release now _) (λ _ h. h)
  happen-keeps (release_generation u expected now) db d =
      keeps-if (holds_number (mailbox (r.view db) u).generation expected) _ _
        (release_hold_generation-released r u db expected now) (λ _. kept.at_release now _)
        (λ _ h. h)
  happen-keeps (release_flow u) db d = keeps (release-dropped r config u db) (kept.at_drop _ d)
  happen-keeps (enqueue_event u n ttl) db d =
      keeps (enqueue_script-appended r u db n ttl) (kept.at_enqueue n _ d)
  happen-keeps (poll now limit) db d = polled now limit db v
  happen-keeps (claim u n ttl now) db d =
      keeps (claim_accept_script-accepted r u db n ttl now) (kept.at_claim n now _)
  happen-keeps (acknowledge u n) db d =
      keeps-if (is_head (head? (mailbox (r.view db) u).queue) n) _ _
        (acknowledge_head-acknowledged r u db n) (λ t. kept.at_acknowledge n _ t) (λ _ h. h)
  happen-keeps (acknowledge_owned u n token) db d =
      elim (Bool-cases (holds_number (mailbox (r.view db) u).owner token)) [
        | inl own ↦
            keeps-if (is_head (head? (mailbox (r.view db) u).queue) n) _ _
              (rw own at (acknowledge_head_if_lock_owned-acknowledged r u db n token))
              (λ t. kept.at_acknowledge n _ t) (λ _ h. h)
        | inr other ↦
            keeps (rw other at (acknowledge_head_if_lock_owned-acknowledged r u db n token))
              (λ h. h)
      ]
  happen-keeps (clear_due u token now) db d =
      keeps-if (clears_due token now (mailbox (r.view db) u)) _ _
        (clear_immediate_due-clears r u db token now) (λ t. kept.at_clear token now _ t) (λ _ h. h)
  happen-keeps (lock u token ttl) db d =
      keeps-if (is_some (mailbox (r.view db) u).owner) _ _ (acquire_lock-owner r u db token ttl)
        (λ _ h. h) (λ _. kept.at_owner (some token) _)
  happen-keeps (unlock u token) db d =
      keeps-if (holds_number (mailbox (r.view db) u).owner token) _ _
        (release_lock_script-owner r u db token) (λ _. kept.at_owner none _) (λ _ h. h)
  happen-keeps (renew u token ttl) db d =
      keeps-if (holds_number (mailbox (r.view db) u).owner token) _ _
        (renew_lock_script-same r u db token ttl) (λ _ h. h) (λ _ h. h)
  happen-keeps (hold_lapses u) db d = keeps (hold_lapses-none r u db) (kept.at_hold_lapse _)
  happen-keeps (generation_lapses u) db d =
      keeps (generation_lapses-none r u db) (kept.at_generation_lapse _)
  happen-keeps (dedupe_lapses u) db d = keeps (dedupe_lapses-none r u db) (kept.at_dedupe_lapse _)
  happen-keeps (lock_lapses u) db d = keeps (lock_lapses-none r u db) (kept.at_owner none _)
