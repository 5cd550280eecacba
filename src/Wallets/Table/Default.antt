-- ===== src/Wallets/Table/Default.antt =====
-- The default wallet of a user, in
-- bot/infrastructure/persistence/sqlalchemy_wallet_repository.py.
use my_mtlwallet_bot.Prelude.{
  ℕ, ◌≤◌, ◌<◌, ◌↔◌, ◌≡◌, refl, ap, ◌∙◌, String, Bool, true, false, not, ◌&&◌, none, some, List, [],
  ◌∷◌, map, arith, leb, ==_refl, if◌then◌else◌, length, Bool-cases, Option-cases, inl, inr,
}
use my_mtlwallet_bot.Wallets.Table.{
  Row, Table, Pickle, select, amend, newest, has_id, is_active, is_default_of, is_keyed,
  with_default, to_entity, entity_of, get_default_wallet, set_default_wallet,
  normalize_default_wallets,
}
use my_mtlwallet_bot.Wallets.Table.Keys.{IsKeyed, newest-select, amend-map, select-only}

map-map : (f g : Row → Row) (xs : List Row) → map f (map g xs) ≡ map (λ x. f (g x)) xs
map-map f g [] = refl
map-map f g (x ∷ xs) = ap (λ l. f (g x) ∷ l) (map-map f g xs)

newest-none : (rs : List Row) → newest rs ≡ none → rs ≡ []
newest-none [] h = refl
newest-none (r ∷ rs) h = cc

module _ (user : ℕ) (t : Table) (keyed : IsKeyed t) where
  module _ (key : String) (target : Row)
      (chosen : newest (select (is_keyed user key) t.rows) ≡ some target) where
    abbrev unset : Row → Row
    unset r = if is_active user r then with_default 0 r else r

    abbrev set : Row → Row
    set r = if has_id target.row_id (unset r) then with_default 1 (unset r) else unset r

    set-keeps : (r : Row) → (set r).row_id ≡ r.row_id
    set-keeps r = ground arith

    unset-keeps : (r : Row) → (unset r).row_id ≡ r.row_id
    unset-keeps r = ground arith

    unset-others :
        (r : Row) → has_id target.row_id r ≡ false → has_id target.row_id (unset r) ≡ false
    unset-others r h = rw (unset-keeps r) h

    set-others : (r : Row) → has_id target.row_id r ≡ false → is_default_of user (set r) ≡ false
    set-others r h = ground arith

    set-target : is_active user target ≡ true → set target ≡ with_default 1 target
    set-target h = rw (h, ==_refl target.row_id) refl

    -- Where the user has an active wallet with the key, set_default_wallet answers True, and the
    -- newest such wallet is then the only active wallet of the user that is marked as default;
    -- ids are distinct.
    pub set_default_wallet-only :
        let out = set_default_wallet user key t in
        (out.0 ≡ true) × (select (is_default_of user) out.1.rows ≡ with_default 1 target ∷ [])
    unfolding set_default_wallet
    set_default_wallet-only =
        let (there, passes) = newest-select (is_keyed user key) t.rows chosen in
        let active : is_active user target ≡ true = ground arith in
        let fits : is_default_of user (set target) ≡ true = rw (set-target active, active) refl in
        let rows : amend (has_id target.row_id) (with_default 1)
              (amend (is_active user) (with_default 0) t.rows)
            ≡ map set t.rows =
          rw (amend-map (is_active user) (with_default 0) t.rows) (
            amend-map (has_id target.row_id) (with_default 1) (map unset t.rows)
            ∙ map-map (λ r. if has_id target.row_id r then with_default 1 r else r) unset t.rows) in
        let one =
          select-only set set-keeps (is_default_of user) target set-others t.rows keyed.distinct
            there fits in
        let counted =
          select-only unset unset-keeps (has_id target.row_id) target unset-others t.rows
            keyed.distinct there (rw (unset-keeps target) (==_refl target.row_id)) in
        rw (chosen, set_default_wallet)
          (
            rw (amend-map (is_active user) (with_default 0) t.rows, counted) refl,
            rw rows (one ∙ ap (λ r. r ∷ []) (set-target active)),
          )

    pub set_default_wallet-found :
        (pickle : Pickle)
        → get_default_wallet pickle user (set_default_wallet user key t).1
          ≡ some (to_entity pickle (with_default 1 target))
    unfolding get_default_wallet
    set_default_wallet-found pickle =
        ap (λ rs. entity_of pickle (newest rs)) set_default_wallet-only.1

  module _ (keep : Row) (first : newest (select (is_default_of user) t.rows) ≡ some keep) where
    abbrev single : Row → Row
    single r = if is_default_of user r && not (has_id keep.row_id r) then with_default 0 r else r

    single-keeps : (r : Row) → (single r).row_id ≡ r.row_id
    single-keeps r = ground arith

    single-others : (r : Row) → has_id keep.row_id r ≡ false → is_default_of user (single r) ≡ false
    single-others r h = elim (Bool-cases (is_default_of user r)) [
      | inl e ↦ rw (e, h) (ground arith)
      | inr e ↦ rw e e
    ]

    single-keep :
        (b : Bool)
        → (if b && not (has_id keep.row_id keep) then with_default 0 keep else keep) ≡ keep
    single-keep b = rw (==_refl keep.row_id) (ground arith)

    normalized :
        select
          (is_default_of user)
          (amend (λ r. is_default_of user r && not (has_id keep.row_id r)) (with_default 0) t.rows)
        ≡ keep ∷ []
    normalized =
        let (there, passes) = newest-select (is_default_of user) t.rows first in
        let same = single-keep (is_default_of user keep) in
        rw
          (amend-map (λ r. is_default_of user r && not (has_id keep.row_id r)) (with_default 0)
            t.rows)
          (select-only single single-keeps (is_default_of user) keep single-others t.rows
              keyed.distinct there (rw same passes)
            ∙ ap (λ r. r ∷ []) same)

  -- normalize_default_wallets leaves a user at most one active default wallet, the one that
  -- get_default_wallet answered before, and answers True exactly if there were more; ids are
  -- distinct.
  pub normalize_default_wallets-one :
      (pickle : Pickle)
      → let out = normalize_default_wallets user t in
        (length (select (is_default_of user) out.1.rows) ≤ 1)
        × (get_default_wallet pickle user out.1 ≡ get_default_wallet pickle user t)
        × ((out.0 ≡ true) ↔ (1 < length (select (is_default_of user) t.rows)))
  unfolding normalize_default_wallets get_default_wallet
  normalize_default_wallets-one pickle =
      elim (Option-cases (newest (select (is_default_of user) t.rows))) [
        | inl e ↦
            let empty = newest-none (select (is_default_of user) t.rows) e in
            rw (e, normalize_default_wallets, empty)
              (omega arith, refl, (λ h. cc, λ h. absurd (omega arith)))
        | inr (keep, first) ↦
            elim (Bool-cases (leb (length (select (is_default_of user) t.rows)) 1)) [
              | inl few ↦
                  rw (first, normalize_default_wallets, few)
                    (ground arith, rw first refl, (λ h. cc, λ h. absurd (ground arith)))
              | inr many ↦
                  rw (first, normalize_default_wallets, many, normalized keep first)
                    (omega arith, refl, (λ h. ground arith, λ h. refl))
            ]
      ]
