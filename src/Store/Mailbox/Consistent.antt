-- ===== src/Store/Mailbox/Consistent.antt =====
-- The invariant of a mailbox: its queue holds no event twice, the set of waiting keys is the set of
-- the keys in the queue, and work that is held or pending is scheduled.
use text.Mathlib.Text.{◌==◌ as str_eq}
use my_mtlwallet_bot.Prelude.{
  ℕ, String, ◌≡◌, ◌≢◌, refl, Bool, true, false, ◌||◌, Option, none, some, List, [], ◌∷◌, ◌++◌,
  arith, eq_iff, if◌then◌else◌, is_some, head?, tail, length, ltb, subst, Bool-cases, inl, inr,
}
use my_mtlwallet_bot.Notification.{BlockchainNotification, idempotency_key, same_json_iff}
use my_mtlwallet_bot.Store.Scripts.{is_head, is_active}
use my_mtlwallet_bot.Store.Mailbox.{
  Mailbox, touched, released, is_known_to, appended, accepted, acknowledged,
}

abbrev pub has_key : String → List BlockchainNotification → Bool
has_key k [] = false
has_key k (n ∷ q) = str_eq (idempotency_key n) k || has_key k q

abbrev pub AllDistinct : List BlockchainNotification → Type 0
AllDistinct [] = Unit
AllDistinct (n ∷ q) = (has_key (idempotency_key n) q ≡ false) × AllDistinct q

pub record IsConsistent (m : Mailbox) : Type 0 where
  pub waits : (k : String) → m.waiting k ≡ has_key k m.queue
  pub distinct : AllDistinct m.queue

-- What is held or pending is in the schedule, so a poll of the schedule finds it.
pub record IsScheduled (m : Mailbox) : Type 0 where
  pub held : is_some m.hold_until ≡ true → is_some m.due_at ≡ true
  pub pends : m.queue ≢ [] → is_some m.due_at ≡ true

has_key-append :
    (k : String) (q : List BlockchainNotification) (n : BlockchainNotification)
    → has_key k (q ++ n ∷ []) ≡ (if str_eq (idempotency_key n) k then true else has_key k q)
has_key-append k [] n = ground arith
has_key-append k (m ∷ q) n = ground (arith, has_key-append k q n)

AllDistinct-append :
    (q : List BlockchainNotification) (n : BlockchainNotification)
    → AllDistinct q
    → has_key (idempotency_key n) q ≡ false
    → AllDistinct (q ++ n ∷ [])
AllDistinct-append [] n d h = (refl, tt)
AllDistinct-append (m ∷ q) n d h = (
  ground (
    arith,
    has_key-append (idempotency_key m) q n,
    eq_iff (idempotency_key m) (idempotency_key n),
    eq_iff (idempotency_key n) (idempotency_key m),
  ),
  AllDistinct-append q n d.1 (ground arith),
)

pub appended-IsConsistent :
    (n : BlockchainNotification) {m : Mailbox}
    → IsConsistent m
    → is_known_to n m ≡ false
    → IsConsistent (appended n m)
unfolding appended
appended-IsConsistent n {m} c new = record {
  waits = λ k. ground (arith, has_key-append k m.queue n, c.waits k);
  distinct = AllDistinct-append m.queue n c.distinct (ground (arith, c.waits (idempotency_key n)));
}

-- Whatever stands at the head, the removed key is not in the rest of the queue.
acknowledged-IsConsistent :
    (n : BlockchainNotification) (q : List BlockchainNotification) {m : Mailbox}
    → IsConsistent m
    → m.queue ≡ n ∷ q
    → IsConsistent (acknowledged n m)
unfolding acknowledged
acknowledged-IsConsistent n q {m} c e =
    let d : AllDistinct (n ∷ q) = subst AllDistinct e c.distinct in
    record {
      waits = λ k.
          let w : m.waiting k ≡ has_key k (n ∷ q) =
            subst (λ l. m.waiting k ≡ has_key k l) e (c.waits k) in
          rw e (ground (arith, w, d.0, eq_iff (idempotency_key n) k));
      distinct = rw e d.1;
    }

pub is_head-cons :
    (n : BlockchainNotification) (q : List BlockchainNotification)
    → is_head (head? q) n ≡ true
    → q ≡ n ∷ tail q
is_head-cons n [] h = cc
is_head-cons n (m ∷ q) h = rw ((same_json_iff m n).0 h)

pub acknowledged_head-IsConsistent :
    (n : BlockchainNotification) {m : Mailbox}
    → IsConsistent m
    → is_head (head? m.queue) n ≡ true
    → IsConsistent (acknowledged n m)
acknowledged_head-IsConsistent n {m} c h =
    acknowledged-IsConsistent n (tail m.queue) c (is_head-cons n m.queue h)

tail-nil : {q : List BlockchainNotification} → tail q ≢ [] → q ≢ []
tail-nil {q = []} h = h
tail-nil {q = m ∷ q} h = λ e. cc

pub acknowledged-IsScheduled :
    (n : BlockchainNotification) {m : Mailbox} → IsScheduled m → IsScheduled (acknowledged n m)
unfolding acknowledged
acknowledged-IsScheduled n {m} s = record { held = s.held; pends = λ h. s.pends (tail-nil h) }

pub touched-IsScheduled : (until g : ℕ) (m : Mailbox) → IsScheduled (touched until g m)
unfolding touched
touched-IsScheduled until g m = record { held = λ h. refl; pends = λ h. refl }

pub released-IsScheduled : (now : ℕ) (m : Mailbox) → IsScheduled (released now m)
unfolding released
released-IsScheduled now m = record { held = λ h. cc; pends = λ h. released_due m.queue h }
  where
    released_due :
        (q : List BlockchainNotification)
        → q ≢ []
        → is_some (if ltb 0 (length q) then some now else none) ≡ true
    released_due [] h = absurd (h refl)
    released_due (n ∷ q) h = ground arith

pub accepted-IsConsistent :
    (n : BlockchainNotification) (now : ℕ) {m : Mailbox}
    → IsConsistent m
    → IsConsistent (accepted n now m).1
unfolding accepted
accepted-IsConsistent n now {m} c = elim (Bool-cases (is_known_to n m)) [
  | inl known ↦ rw known c
  | inr new ↦
      let a = appended-IsConsistent n c new in
      rw new (elim (Bool-cases (is_active m.hold_until now)) [
        | inl on ↦ rw on a
        | inr off ↦ rw off (record { waits = a.waits; distinct = a.distinct })
      ])
]

pub accepted-IsScheduled :
    (n : BlockchainNotification) (now : ℕ) {m : Mailbox}
    → IsScheduled m
    → IsScheduled (accepted n now m).1
unfolding accepted appended
accepted-IsScheduled n now {m} s = elim (Bool-cases (is_known_to n m)) [
  | inl known ↦ rw known s
  | inr new ↦ rw new (elim (Bool-cases (is_active m.hold_until now)) [
    | inl on ↦
        rw on (record { held = s.held; pends = λ h. s.held (held_of_active m.hold_until on) })
    | inr off ↦ rw off (record { held = λ h. refl; pends = λ h. refl })
  ])
]
  where
    held_of_active : (h : Option ℕ) → is_active h now ≡ true → is_some h ≡ true
    held_of_active none e = cc
    held_of_active (some t) e = refl
