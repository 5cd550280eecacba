-- ===== src/Wallets/Table/Keys.antt =====
-- The primary key of the table of wallets in
-- bot/infrastructure/persistence/sqlalchemy_wallet_repository.py, and what a statement that keeps it
-- does to a selection.
use my_mtlwallet_bot.Prelude.{
  ℕ, ◌<◌, ◌≡◌, ◌⊎◌, refl, sym, ap, subst, ◌∙◌, Bool, true, false, Option, none, some, List, [], ◌∷◌,
  map, arith, ltb, if◌then◌else◌, All, Bool-cases, inl, inr,
}
use my_mtlwallet_bot.Wallets.Table.{Row, Table, select, amend, newest, later_row, has_id}

abbrev pub AreDistinct : List Row → Type 0
AreDistinct [] = Unit
AreDistinct (r ∷ rs) = All (λ s. has_id r.row_id s ≡ false) rs × AreDistinct rs

pub record IsKeyed (t : Table) : Type 0 where
  pub distinct : AreDistinct t.rows
  pub below : All (λ r. r.row_id < t.next_id) t.rows

abbrev pub IsIn : Row → List Row → Type 0
IsIn a [] = ⊥
IsIn a (r ∷ rs) = (r ≡ a) ⊎ IsIn a rs

pub All-IsIn : (P : Row → Type 0) (rs : List Row) → ((r : Row) → IsIn r rs → P r) → All P rs
All-IsIn P [] h = tt
All-IsIn P (r ∷ rs) h = (h r (inl refl), All-IsIn P rs (λ s i. h s (inr i)))

pub IsIn-All : (P : Row → Type 0) (rs : List Row) (a : Row) → All P rs → IsIn a rs → P a
IsIn-All P [] a h i = elim i [ ]
IsIn-All P (r ∷ rs) a h (inl e) = subst P e h.0
IsIn-All P (r ∷ rs) a h (inr i) = IsIn-All P rs a h.1 i

pub same_row :
    (rs : List Row) (a b : Row)
    → AreDistinct rs
    → IsIn a rs
    → IsIn b rs
    → a.row_id ≡ b.row_id
    → a ≡ b
same_row [] a b d i j e = elim i [ ]
same_row (r ∷ rs) a b d (inl p) (inl q) e = sym p ∙ q
same_row (r ∷ rs) a b d (inl p) (inr j) e =
    let f : has_id r.row_id b ≡ false = IsIn-All (λ s. has_id r.row_id s ≡ false) rs b d.0 j in
    absurd (ground (arith, ap (λ (x : Row). x.row_id) p))
same_row (r ∷ rs) a b d (inr i) (inl q) e =
    let f : has_id r.row_id a ≡ false = IsIn-All (λ s. has_id r.row_id s ≡ false) rs a d.0 i in
    absurd (ground (arith, ap (λ (x : Row). x.row_id) q))
same_row (r ∷ rs) a b d (inr i) (inr j) e = same_row rs a b d.1 i j e

later_row-cases : (r : Row) (o : Option Row) → (later_row r o ≡ r) ⊎ (o ≡ some (later_row r o))
later_row-cases r none = inl refl
later_row-cases r (some s) = elim (Bool-cases (ltb s.row_id r.row_id)) [
  | inl e ↦ rw e (inl refl)
  | inr e ↦ rw e (inr refl)
]

newest-IsIn : (rs : List Row) (a : Row) → newest rs ≡ some a → IsIn a rs
newest-IsIn [] a h = cc
newest-IsIn (r ∷ rs) a h = elim (later_row-cases r (newest rs)) [
  | inl e ↦ inl (cc)
  | inr e ↦ inr (newest-IsIn rs a (cc))
]

pub IsIn-select :
    (p : Row → Bool) (rs : List Row) (a : Row) → IsIn a (select p rs) → IsIn a rs × (p a ≡ true)
IsIn-select p [] a i = elim i [ ]
IsIn-select p (r ∷ rs) a i = elim (Bool-cases (p r)) [
  | inl e ↦
      let there : (r ≡ a) ⊎ IsIn a (select p rs) = rw e at i in
      elim there [
        | inl q ↦ (inl q, subst (λ x. p x ≡ true) q e)
        | inr j ↦ let g = IsIn-select p rs a j in (inr g.0, g.1)
      ]
  | inr e ↦ let g = IsIn-select p rs a (rw e at i) in (inr g.0, g.1)
]

-- What a selection finds is there, and passes the test.
pub newest-select :
    (p : Row → Bool) (rs : List Row) {a : Row}
    → newest (select p rs) ≡ some a
    → IsIn a rs × (p a ≡ true)
newest-select p rs {a} h = IsIn-select p rs a (newest-IsIn (select p rs) a h)

pub amend-map :
    (test : Row → Bool) (f : Row → Row) (rs : List Row)
    → amend test f rs ≡ map (λ r. if test r then f r else r) rs
amend-map test f [] = refl
amend-map test f (r ∷ rs) = ap (λ l. (if test r then f r else r) ∷ l) (amend-map test f rs)

-- A change of rows that keeps their ids.
module _ (f : Row → Row) (keeps : (r : Row) → (f r).row_id ≡ r.row_id) where
  abbrev pub changed : Option Row → Option Row
  changed none = none
  changed (some r) = some (f r)

  changed-later :
      (r : Row) (o : Option Row)
      → some (later_row (f r) (changed o)) ≡ changed (some (later_row r o))
  changed-later r none = refl
  changed-later r (some s) =
      let same : ltb (f s).row_id (f r).row_id ≡ ltb s.row_id r.row_id =
        λ i. ltb (keeps s i) (keeps r i) in
      elim (Bool-cases (ltb s.row_id r.row_id)) [
        | inl e ↦ rw (same, e) refl
        | inr e ↦ rw (same, e) refl
      ]

  pub newest-map : (rs : List Row) → newest (map f rs) ≡ changed (newest rs)
  newest-map [] = refl
  newest-map (r ∷ rs) = rw (newest-map rs) (changed-later r (newest rs))

  pub select-map :
      (p : Row → Bool) (rs : List Row)
      → All (λ r. p (f r) ≡ p r) rs
      → select p (map f rs) ≡ map f (select p rs)
  select-map p [] h = refl
  select-map p (r ∷ rs) h =
      rw (h.0, select-map p rs h.1)
        (elim (Bool-cases (p r)) [ inl e ↦ rw e refl | inr e ↦ rw e refl ])

  fresh-map :
      (k : ℕ) (rs : List Row)
      → All (λ s. has_id k s ≡ false) rs
      → All (λ s. has_id k s ≡ false) (map f rs)
  fresh-map k [] h = tt
  fresh-map k (r ∷ rs) h = (rw (keeps r) h.0, fresh-map k rs h.1)

  pub map-AreDistinct : (rs : List Row) → AreDistinct rs → AreDistinct (map f rs)
  map-AreDistinct [] d = tt
  map-AreDistinct (r ∷ rs) d = (rw (keeps r) (fresh-map r.row_id rs d.0), map-AreDistinct rs d.1)

  pub map-below :
      (n : ℕ) (rs : List Row) → All (λ r. r.row_id < n) rs → All (λ r. r.row_id < n) (map f rs)
  map-below n [] h = tt
  map-below n (r ∷ rs) h = (rw (keeps r) h.0, map-below n rs h.1)

  -- Where the change puts one row into a selection and no other.
  module _ (p : Row → Bool) (a : Row)
      (others : (r : Row) → has_id a.row_id r ≡ false → p (f r) ≡ false) where
    select-none :
        (rs : List Row) → All (λ s. has_id a.row_id s ≡ false) rs → select p (map f rs) ≡ []
    select-none [] h = refl
    select-none (r ∷ rs) h = rw (others r h.0) (select-none rs h.1)

    pub select-only :
        (rs : List Row)
        → AreDistinct rs
        → IsIn a rs
        → p (f a) ≡ true
        → select p (map f rs) ≡ f a ∷ []
    select-only [] d i t = elim i [ ]
    select-only (r ∷ rs) d (inl e) t =
        let fresh = subst (λ (x : Row). All (λ s. has_id x.row_id s ≡ false) rs) e d.0 in
        subst (λ x. select p (f x ∷ map f rs) ≡ f a ∷ []) (sym e)
          (rw (t, select-none rs fresh) refl)
    select-only (r ∷ rs) d (inr i) t =
        let apart : has_id r.row_id a ≡ false =
          IsIn-All (λ s. has_id r.row_id s ≡ false) rs a d.0 i in
        rw (others r (ground arith)) (select-only rs d.1 i t)
