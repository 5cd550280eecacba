-- ===== src/Prelude/Lists.antt =====
-- Lists measured and cut by native numbers, under the library's names.
use Prim.Native.Nat.{ℕ, zero, suc, ◌+◌, ◌≤◌, ◌<◌}
use mathlib.Core.List.{List, [], ◌∷◌, ◌++◌}
use mathlib.Core.Option.{Option, none, some}
use mathlib.Core.Path.{◌≡◌, refl, ap}
use native.Mathlib.Nat.{zero-add, suc-add}
use Prim.{absurd}
use native.Mathlib.Omega.{arith}

module _ {ℓ} {A : Type ℓ} where
  abbrev pub length : List A → ℕ
  length [] = 0
  length (x ∷ xs) = suc (length xs)

  abbrev pub head? : List A → Option A
  head? [] = none
  head? (x ∷ xs) = some x

  abbrev pub tail : List A → List A
  tail [] = []
  tail (x ∷ xs) = xs

  abbrev pub take : ℕ → List A → List A
  take zero xs = []
  take (suc n) [] = []
  take (suc n) (x ∷ xs) = x ∷ take n xs

  abbrev pub drop : ℕ → List A → List A
  drop zero xs = xs
  drop (suc n) [] = []
  drop (suc n) (x ∷ xs) = drop n xs

  pub length-take-le : (n : ℕ) (xs : List A) → length (take n xs) ≤ n
  length-take-le zero xs = omega arith
  length-take-le (suc n) [] = omega arith
  length-take-le (suc n) (x ∷ xs) = omega (arith, length-take-le n xs)

  pub length-append : (xs ys : List A) → length (xs ++ ys) ≡ length xs + length ys
  length-append [] ys = omega arith
  length-append (x ∷ xs) ys = omega (arith, length-append xs ys)

  pub take_all : (n : ℕ) (xs : List A) → length xs ≤ n → take n xs ≡ xs
  take_all zero [] h = refl
  take_all (suc n) [] h = refl
  take_all zero (x ∷ xs) h = absurd (omega arith)
  take_all (suc n) (x ∷ xs) h = ap (λ l. x ∷ l) (take_all n xs (omega arith))

  -- A full list leaves no room.
  pub take_full :
      (n : ℕ) (xs ys zs : List A) → n ≤ length xs → take n (xs ++ ys) ≡ take n (xs ++ zs)
  take_full zero xs ys zs h = refl
  take_full (suc n) [] ys zs h = absurd (omega arith)
  take_full (suc n) (x ∷ xs) ys zs h = ap (λ l. x ∷ l) (take_full n xs ys zs (omega arith))

  take_nil : (n : ℕ) → take n [] ≡ []
  take_nil zero = refl
  take_nil (suc n) = refl

  pub take-add : (m n : ℕ) (xs : List A) → take (m + n) xs ≡ take m xs ++ take n (drop m xs)
  take-add zero n xs = rw (zero-add n) refl
  take-add (suc m) n [] = rw (take_nil (suc m + n), take_nil n) refl
  take-add (suc m) n (x ∷ xs) = rw (suc-add m n) (ap (λ l. x ∷ l) (take-add m n xs))

  -- A list that runs out gives no more.
  pub take-add_short :
      (m n : ℕ) (xs : List A) → length (take m xs) < m → take m xs ≡ take (m + n) xs
  take-add_short zero n xs h = absurd (omega arith)
  take-add_short (suc m) n [] h = rw (take_nil (suc m + n)) refl
  take-add_short (suc m) n (x ∷ xs) h =
      rw (suc-add m n) (ap (λ l. x ∷ l) (take-add_short m n xs (omega arith)))

  drop_nil : (n : ℕ) → drop n [] ≡ []
  drop_nil zero = refl
  drop_nil (suc n) = refl

  pub drop-add : (m n : ℕ) (xs : List A) → drop (m + n) xs ≡ drop n (drop m xs)
  drop-add zero n xs = rw (zero-add n) refl
  drop-add (suc m) n [] = rw (drop_nil (suc m + n), drop_nil n) refl
  drop-add (suc m) n (x ∷ xs) = rw (suc-add m n) (drop-add m n xs)

-- A predicate that holds of every element.
abbrev pub All {ℓ κ} : {A : Type ℓ} → (A → Type κ) → List A → Type κ
All P [] = Unit
All P (x ∷ xs) = P x × All P xs
