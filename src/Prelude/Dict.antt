-- ===== src/Prelude/Dict.antt =====
-- A Python dict with number keys: pairs in insertion order, each key once.
use Prim.Native.Nat.{ℕ}
use mathlib.Core.Path.{◌≡◌, refl}
use mathlib.Core.Bool.{false}
use mathlib.Core.List.{List, [], ◌∷◌}
use mathlib.Core.Option.{Option, none, some}
use native.Mathlib.Omega.{arith}
use mathlib.Core.Logic.{inl, inr}
use my_mtlwallet_bot.Prelude.Tests.{◌==◌, ==_refl, if◌then◌else◌, Bool-cases}

abbrev pub Dict : Type 0 → Type 0
Dict A = List (ℕ × A)

module _ {A : Type 0} where
  -- `d.get(k)`
  abbrev pub get : ℕ → Dict A → Option A
  get k [] = none
  get k ((key, value) ∷ d) = if key == k then some value else get k d

  -- `d[k] = v`: in place, or at the end
  unfoldable pub put : ℕ → A → Dict A → Dict A
  put k v [] = (k, v) ∷ []
  put k v ((key, value) ∷ d) =
      let rest = put k v d in if key == k then (k, v) ∷ d else (key, value) ∷ rest

  -- `del d[k]`
  unfoldable pub del : ℕ → Dict A → Dict A
  del k [] = []
  del k ((key, value) ∷ d) = let rest = del k d in if key == k then rest else (key, value) ∷ rest

  pub get-put : (k : ℕ) (v : A) (d : Dict A) → get k (put k v d) ≡ some v
  unfolding put
  get-put k v [] = rw (==_refl k) refl
  get-put k v ((key, value) ∷ d) = elim (Bool-cases (key == k)) [
    | inl e ↦ rw (e, put, ==_refl k) refl
    | inr e ↦ rw (e, put, e) (get-put k v d)
  ]

  pub get-del : (k : ℕ) (d : Dict A) → get k (del k d) ≡ none
  unfolding del
  get-del k [] = refl
  get-del k ((key, value) ∷ d) = elim (Bool-cases (key == k)) [
    | inl e ↦ rw (e, del) (get-del k d)
    | inr e ↦ rw (e, del, e) (get-del k d)
  ]

  pub get_put_other :
      (j k : ℕ) (v : A) (d : Dict A) → (k == j) ≡ false → get j (put k v d) ≡ get j d
  unfolding put
  get_put_other j k v [] h = rw h refl
  get_put_other j k v ((key, value) ∷ d) h = elim (Bool-cases (key == k)) [
    | inl e ↦ let f : (key == j) ≡ false = ground arith in rw (e, put, h, f) refl
    | inr e ↦
        rw (e, put)
          (elim (Bool-cases (key == j)) [
            | inl f ↦ rw f refl
            | inr f ↦ rw f (get_put_other j k v d h)
          ])
  ]

  pub get_del_other : (j k : ℕ) (d : Dict A) → (k == j) ≡ false → get j (del k d) ≡ get j d
  unfolding del
  get_del_other j k [] h = refl
  get_del_other j k ((key, value) ∷ d) h = elim (Bool-cases (key == k)) [
    | inl e ↦ let f : (key == j) ≡ false = ground arith in rw (e, del, f) (get_del_other j k d h)
    | inr e ↦
        rw (e, del)
          (elim (Bool-cases (key == j)) [
            | inl f ↦ rw f refl
            | inr f ↦ rw f (get_del_other j k d h)
          ])
  ]
