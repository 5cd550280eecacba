-- ===== src/SealedBox/Window.antt =====
-- The rolling limit of bot/infrastructure/services/stellar_sealedbox_service.py against its meaning:
-- an operation is granted exactly if fewer than the limit were granted within the window before it.
use my_mtlwallet_bot.Prelude.{
  ℕ, ◌+◌, ◌≤◌, ◌<◌, ◌≡◌, refl, sym, ap, ◌∙◌, Bool, true, false, List, [], ◌∷◌, ◌++◌, arith, ltb,
  leb, if◌then◌else◌, length, All, Bool-cases, inl, inr,
}
use my_mtlwallet_bot.SealedBox.{Limits, recent, take_slot}

-- The operations granted over a sequence of attempts of one user, for a deque.
unfoldable pub grants : Limits → List ℕ → List ℕ → List Bool
grants limits attempts [] = []
grants limits attempts (now ∷ times) =
    let (granted, kept) = take_slot limits now attempts in granted ∷ grants limits kept times

-- Those of `granted` that fall in the window that ends at `now`.
abbrev pub within : ℕ → ℕ → List ℕ → ℕ
within window now [] = 0
within window now (at ∷ granted) =
    (if ltb now (at + window) then 1 else 0) + within window now granted

-- The same by the whole history.
pub reference : Limits → List ℕ → List ℕ → List Bool
reference limits granted [] = []
reference limits granted (now ∷ times) =
    if leb limits.max_operations (within limits.window_seconds now granted)
    then false ∷ reference limits granted times
    else true ∷ reference limits (granted ++ now ∷ []) times

-- A clock that does not go back.
abbrev pub IsClock : ℕ → List ℕ → Type 0
IsClock start [] = Unit
IsClock start (now ∷ times) = (start ≤ now) × IsClock now times

-- A deque that stands for a history: its attempts came in order, none after `now`, and from `now` on
-- both count the same.
pub record StandsFor (limits : Limits) (now : ℕ) (attempts granted : List ℕ) : Type 0 where
  ordered : IsClock 0 attempts
  past : All (λ at. at ≤ now) attempts
  same :
      (t : ℕ)
      → now ≤ t
      → within limits.window_seconds t granted ≡ within limits.window_seconds t attempts

module _ (window : ℕ) where
  within-append :
      (t : ℕ) (xs ys : List ℕ)
      → within window t (xs ++ ys) ≡ within window t xs + within window t ys
  within-append t [] ys = omega arith
  within-append t (x ∷ xs) ys = ground (arith, within-append t xs ys)

  -- What the deque drops counts no more.
  within-recent :
      (now t : ℕ) (xs : List ℕ)
      → now ≤ t
      → within window t (recent window now xs) ≡ within window t xs
  unfolding recent
  within-recent now t [] h = refl
  within-recent now t (x ∷ xs) h = ground (arith, within-recent now t xs)

  within-all :
      (now start : ℕ) (xs : List ℕ)
      → IsClock start xs
      → now < start + window
      → within window now xs ≡ length xs
  within-all now start [] c h = refl
  within-all now start (x ∷ xs) c h =
      let ih = within-all now x xs c.1 (omega (arith, c.0)) in ground (arith, c.0)

  -- What it keeps counts all.
  within-length :
      (now start : ℕ) (xs : List ℕ)
      → IsClock start xs
      → within window now (recent window now xs) ≡ length (recent window now xs)
  unfolding recent
  within-length now start [] c = refl
  within-length now start (x ∷ xs) c = elim (Bool-cases (leb (x + window) now)) [
    | inl old ↦ rw old (within-length now x xs c.1)
    | inr new ↦ rw new (let ih = within-all now x xs c.1 (ground arith) in ground arith)
  ]

IsClock-weaken : (a b : ℕ) (xs : List ℕ) → a ≤ b → IsClock b xs → IsClock a xs
IsClock-weaken a b [] h c = tt
IsClock-weaken a b (x ∷ xs) h c = (omega (arith, c.0), c.1)

IsClock-append :
    (a now : ℕ) (xs : List ℕ)
    → IsClock a xs
    → All (λ at. at ≤ now) xs
    → a ≤ now
    → IsClock a (xs ++ now ∷ [])
IsClock-append a now [] c p h = (h, tt)
IsClock-append a now (x ∷ xs) c p h = (c.0, IsClock-append x now xs c.1 p.1 p.0)

All-append_self :
    (now : ℕ) (xs : List ℕ) → All (λ at. at ≤ now) xs → All (λ at. at ≤ now) (xs ++ now ∷ [])
All-append_self now [] p = (omega arith, tt)
All-append_self now (x ∷ xs) p = (p.0, All-append_self now xs p.1)

All-weaken : (a b : ℕ) (xs : List ℕ) → a ≤ b → All (λ at. at ≤ a) xs → All (λ at. at ≤ b) xs
All-weaken a b [] h p = tt
All-weaken a b (x ∷ xs) h p = (omega (arith, p.0), All-weaken a b xs h p.1)

module _ (window now : ℕ) where
  recent-IsClock : (a : ℕ) (xs : List ℕ) → IsClock a xs → IsClock a (recent window now xs)
  unfolding recent
  recent-IsClock a [] c = c
  recent-IsClock a (x ∷ xs) c = elim (Bool-cases (leb (x + window) now)) [
    | inl old ↦ rw old (recent-IsClock a xs (IsClock-weaken a x xs c.0 c.1))
    | inr new ↦ rw new c
  ]

  recent-past :
      (b : ℕ) (xs : List ℕ) → All (λ at. at ≤ b) xs → All (λ at. at ≤ b) (recent window now xs)
  unfolding recent
  recent-past b [] p = p
  recent-past b (x ∷ xs) p = elim (Bool-cases (leb (x + window) now)) [
    | inl old ↦ rw old (recent-past b xs p.1)
    | inr new ↦ rw new p
  ]

module _ (limits : Limits) where
  abbrev kept : ℕ → List ℕ → List ℕ
  kept now attempts = recent limits.window_seconds now attempts

  -- After an attempt that is refused.
  refused-StandsFor :
      {start : ℕ} (now : ℕ) (attempts granted : List ℕ)
      → start ≤ now
      → StandsFor limits start attempts granted
      → StandsFor limits now (kept now attempts) granted
  refused-StandsFor {start} now attempts granted h s = record {
    ordered = recent-IsClock limits.window_seconds now 0 attempts s.ordered;
    past =
        recent-past limits.window_seconds now now attempts (All-weaken start now attempts h s.past);
    same = λ t later.
        s.same t (omega arith) ∙ sym (within-recent limits.window_seconds now t attempts later);
  }

  -- After one that is granted.
  granted-StandsFor :
      (now : ℕ) (attempts granted : List ℕ)
      → StandsFor limits now attempts granted
      → StandsFor limits now (attempts ++ now ∷ []) (granted ++ now ∷ [])
  granted-StandsFor now attempts granted s = record {
    ordered = IsClock-append 0 now attempts s.ordered s.past (omega arith);
    past = All-append_self now attempts s.past;
    same = λ t later.
        rw
          (
            within-append limits.window_seconds t granted (now ∷ []),
            within-append limits.window_seconds t attempts (now ∷ []),
            s.same t later,
          )
          refl;
  }

  same-count :
      {start : ℕ} (now : ℕ) (attempts granted : List ℕ)
      → start ≤ now
      → StandsFor limits start attempts granted
      → within limits.window_seconds now granted ≡ length (kept now attempts)
  same-count now attempts granted h s =
      s.same now h
      ∙ sym (within-recent limits.window_seconds now now attempts (omega arith))
      ∙ within-length limits.window_seconds now 0 attempts s.ordered

  grants-StandsFor :
      (start : ℕ) (attempts granted times : List ℕ)
      → StandsFor limits start attempts granted
      → IsClock start times
      → grants limits attempts times ≡ reference limits granted times
  unfolding grants reference take_slot
  grants-StandsFor start attempts granted [] s c = refl
  grants-StandsFor start attempts granted (now ∷ times) s c =
      let after = refused-StandsFor now attempts granted c.0 s in
      let count = same-count now attempts granted c.0 s in
      elim (Bool-cases (leb limits.max_operations (length (kept now attempts)))) [
        | inl full ↦
            rw (count, full)
              (ap (λ l. false ∷ l)
                (grants-StandsFor now (kept now attempts) granted times after c.1))
        | inr room ↦
            rw (count, room)
              (ap (λ l. true ∷ l)
                (grants-StandsFor now (kept now attempts ++ now ∷ []) (granted ++ now ∷ []) times
                  (granted-StandsFor now (kept now attempts) granted after) c.1))
      ]

  -- Over every sequence of one user's attempts on a clock that does not go back, the deque of
  -- recent attempts grants exactly those attempts before which fewer operations than the limit
  -- were granted within the window, counted over the whole history.
  pub grants-reference :
      (times : List ℕ) → IsClock 0 times → grants limits [] times ≡ reference limits [] times
  grants-reference times c =
      grants-StandsFor 0 [] [] times (record { ordered = tt; past = tt; same = λ t h. refl }) c
