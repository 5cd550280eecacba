-- ===== src/Wallets/Table/Implements.antt =====
-- The table of wallets is a wallet repository: what the use cases assume of one holds of
-- bot/infrastructure/persistence/sqlalchemy_wallet_repository.py.
use my_mtlwallet_bot.Prelude.{
  ℕ, ◌+◌, ◌<◌, ◌≡◌, refl, sym, ap, subst, ◌∙◌, String, Bool, true, false, not, Option, none, some,
  List, [], ◌∷◌, ◌++◌, arith, ◌==◌, if◌then◌else◌, is_some, All, Bool-cases, Option-cases, inl, inr,
}
use my_mtlwallet_bot.Wallets.{Wallet, WalletRepository}
use my_mtlwallet_bot.Wallets.Table.{
  Row, Table, Cache, Pickle, select, amend, newest, has_id, is_active, is_default_of, is_keyed,
  with_default, flag, overwritten, cache_of, to_entity, get_default_wallet, create, update,
  count_free_wallets, set_default_wallet,
}
use my_mtlwallet_bot.Wallets.Table.Keys.{
  AreDistinct, IsKeyed, IsIn, All-IsIn, same_row, newest-select, amend-map, newest-map, select-map,
  map-AreDistinct, map-below,
}

-- A statement that keeps the ids of the rows it changes keeps the primary key.
amend-IsKeyed :
    (test : Row → Bool) (f : Row → Row) (t : Table)
    → ((r : Row) → (f r).row_id ≡ r.row_id)
    → IsKeyed t
    → IsKeyed (record t { rows = amend test f t.rows })
amend-IsKeyed test f t keeps k =
    let g : Row → Row = λ r. if test r then f r else r in
    let keeps_id : (r : Row) → (g r).row_id ≡ r.row_id =
      λ r. elim (Bool-cases (test r)) [ inl e ↦ rw e (keeps r) | inr e ↦ rw e refl ] in
    record {
      distinct = rw (amend-map test f t.rows) (map-AreDistinct g keeps_id t.rows k.distinct);
      below = rw (amend-map test f t.rows) (map-below g keeps_id t.next_id t.rows k.below);
    }

append-fresh :
    (k : ℕ) (rs : List Row) (r : Row)
    → All (λ s. has_id k s ≡ false) rs
    → has_id k r ≡ false
    → All (λ s. has_id k s ≡ false) (rs ++ r ∷ [])
append-fresh k [] r h e = (e, tt)
append-fresh k (s ∷ rs) r h e = (h.0, append-fresh k rs r h.1 e)

append-AreDistinct :
    (rs : List Row) (r : Row)
    → AreDistinct rs
    → All (λ s. s.row_id < r.row_id) rs
    → AreDistinct (rs ++ r ∷ [])
append-AreDistinct [] r d h = (tt, tt)
append-AreDistinct (s ∷ rs) r d h =
    (append-fresh s.row_id rs r d.0 (ground arith), append-AreDistinct rs r d.1 h.1)

append-below :
    (n : ℕ) (rs : List Row) (r : Row)
    → All (λ s. s.row_id < n) rs
    → r.row_id ≡ n
    → All (λ s. s.row_id < n + 1) (rs ++ r ∷ [])
append-below n [] r h e = (omega arith, tt)
append-below n (s ∷ rs) r h e = (omega arith, append-below n rs r h.1 e)

module _ (pickle : Pickle) where
  pub create-IsKeyed : (w : Wallet) (t : Table) → IsKeyed t → IsKeyed (create pickle w t).1
  unfolding create
  create-IsKeyed w t k = record {
    distinct = append-AreDistinct t.rows _ k.distinct k.below;
    below = append-below t.next_id t.rows _ k.below refl;
  }

  pub set_default_wallet-IsKeyed :
      (user : ℕ) (key : String) (t : Table) → IsKeyed t → IsKeyed (set_default_wallet user key t).1
  unfolding set_default_wallet
  set_default_wallet-IsKeyed user key t k =
      elim (Option-cases (newest (select (is_keyed user key) t.rows))) [
        | inl e ↦ rw (e, set_default_wallet) k
        | inr (target, e) ↦
            let unset = amend-IsKeyed (is_active user) (with_default 0) t (λ r. refl) k in
            rw (e, set_default_wallet)
              (amend-IsKeyed (has_id target.row_id) (with_default 1)
                (record t { rows = amend (is_active user) (with_default 0) t.rows }) (λ r. refl)
                unset)
      ]

  -- The cache that the wallet's entity was read with.
  unfoldable pub cache_at : ℕ → Table → Cache
  cache_at wallet_id t = elim (newest (select (has_id wallet_id) t.rows)) [
    | none ↦ record {
      balances = none;
      balances_event_id = "0";
      last_event_id = "0";
      balances_updated_at = none;
    }
    | some r ↦ cache_of pickle r
  ]

  unfoldable pub or_same : Table → Option Table → Table
  or_same t none = t
  or_same t (some t') = t'

  -- An update of a wallet that is not there raises and changes nothing.
  unfoldable pub updated : Wallet → Table → Table
  unfolding cache_at or_same
  updated w t = or_same t (update pickle w (cache_at w.wallet_id t) t)

  pub updated-IsKeyed : (w : Wallet) (t : Table) → IsKeyed t → IsKeyed (updated w t)
  unfolding updated update or_same
  updated-IsKeyed w t k =
      elim (Bool-cases (is_some (newest (select (has_id w.wallet_id) t.rows)))) [
        | inl e ↦
            rw (e, update, or_same)
              (amend-IsKeyed (has_id w.wallet_id) (overwritten pickle w (cache_at w.wallet_id t)) t
                (λ r. refl) k)
        | inr e ↦ rw (e, update, or_same) k
      ]

  select-IsIn :
      (p : Row → Bool) (rs : List Row) (a : Row)
      → IsIn a rs
      → p a ≡ true
      → is_some (newest (select p rs)) ≡ true
  select-IsIn p [] a i e = elim i [ ]
  select-IsIn p (r ∷ rs) a (inl q) e = rw (subst (λ x. p x ≡ true) (sym q) e) refl
  select-IsIn p (r ∷ rs) a (inr i) e = elim (Bool-cases (p r)) [
    | inl t ↦ rw t refl
    | inr f ↦ rw f (select-IsIn p rs a i e)
  ]

  flag_back : (b : Bool) → not (flag b == 0) ≡ b
  flag_back true = refl
  flag_back false = refl

  -- The row that the user's default wallet was read from, rewritten.
  module _ (user : ℕ) (w' : Wallet) (t : Table) (k : IsKeyed t) (row : Row)
      (read : newest (select (is_default_of user) t.rows) ≡ some row)
      (id : row.row_id ≡ w'.wallet_id) (default : w'.is_default ≡ true) where
    abbrev write : Row → Row
    write r = if has_id w'.wallet_id r then overwritten pickle w' (cache_at w'.wallet_id t) r else r

    write-row_id : (r : Row) → (write r).row_id ≡ r.row_id
    write-row_id r = elim (Bool-cases (has_id w'.wallet_id r)) [
      | inl e ↦ rw e refl
      | inr e ↦ rw e refl
    ]

    write-row : write row ≡ overwritten pickle w' (cache_at w'.wallet_id t) row
    write-row = let own : has_id w'.wallet_id row ≡ true = ground arith in rw own refl

    write-default : (r : Row) → IsIn r t.rows → is_default_of user (write r) ≡ is_default_of user r
    write-default r i = elim (Bool-cases (has_id w'.wallet_id r)) [
      | inr e ↦ rw e refl
      | inl e ↦
          let (there, passes) = newest-select (is_default_of user) t.rows read in
          let same : row ≡ r = same_row t.rows row r k.distinct there i (ground arith) in
          subst (λ x. is_default_of user (write x) ≡ is_default_of user x) same
            (rw (write-row, passes, default) (ground arith))
    ]

    updated-row :
        newest (select (is_default_of user) (updated w' t).rows)
        ≡ some (overwritten pickle w' (cache_at w'.wallet_id t) row)
    unfolding updated update or_same
    updated-row =
        let (there, passes) = newest-select (is_default_of user) t.rows read in
        let own : has_id w'.wallet_id row ≡ true = ground arith in
        rw
          (
            select-IsIn (has_id w'.wallet_id) t.rows row there own,
            or_same,
            amend-map (has_id w'.wallet_id) (overwritten pickle w' (cache_at w'.wallet_id t))
                t.rows,
          )
          (ap newest (
              select-map write write-row_id (is_default_of user) t.rows (
                All-IsIn (λ r. is_default_of user (write r) ≡ is_default_of user r) t.rows
                  write-default))
            ∙ newest-map write write-row_id (select (is_default_of user) t.rows)
            ∙ rw read (ap some write-row))

  -- The table of wallets keeps the promise that the use cases rely on: an update of the default
  -- wallet that get_default_wallet answered, which keeps its number, owner, key and default flag,
  -- is what get_default_wallet answers next; ids are distinct.
  pub get_default_wallet-updated :
      (user : ℕ) (w w' : Wallet) (t : Table)
      → IsKeyed t
      → get_default_wallet pickle user t ≡ some w
      → w'.wallet_id ≡ w.wallet_id
      → w'.user_id ≡ w.user_id
      → w'.public_key ≡ w.public_key
      → w'.is_default ≡ w.is_default
      → get_default_wallet pickle user (updated w' t) ≡ some w'
  unfolding get_default_wallet
  get_default_wallet-updated user w w' t k h id owner key default =
      elim (Option-cases (newest (select (is_default_of user) t.rows))) [
        | inl e ↦ let g = rw e at h in cc
        | inr (row, e) ↦
            let same : to_entity pickle row ≡ w = cc (rw e at h) in
            let passes = (newest-select (is_default_of user) t.rows e).1 in
            let is_default : w'.is_default ≡ true =
              default ∙ sym (ap (λ (x : Wallet). x.is_default) same) ∙ (ground arith) in
            let read =
              updated-row user w' t k row e (ap (λ (x : Wallet). x.wallet_id) same ∙ sym id)
                is_default in
            rw read (λ i. some (record {
              wallet_id = (ap (λ (x : Wallet). x.wallet_id) same ∙ sym id) i;
              user_id = (ap (λ (x : Wallet). x.user_id) same ∙ sym owner) i;
              public_key = (ap (λ (x : Wallet). x.public_key) same ∙ sym key) i;
              is_default = flag_back w'.is_default i;
              is_free = flag_back w'.is_free i;
              use_pin = w'.use_pin;
              secret_key = w'.secret_key;
              seed_key = w'.seed_key;
              wallet_crypto_v2 = w'.wallet_crypto_v2;
            }))
      ]

  -- The tables in which ids are distinct, and the operations that the use cases call.
  unfoldable pub wallet_table : WalletRepository
  wallet_table = record {
    Db = (t : Table) × IsKeyed t;
    get_default_wallet = λ user db. get_default_wallet pickle user db.0;
    count_free_wallets = λ user db. count_free_wallets user db.0;
    create = λ w db. let out = create pickle w db.0 in (out.0, (out.1, create-IsKeyed w db.0 db.1));
    set_default_wallet = λ user key db.
        ((set_default_wallet user key db.0).1, set_default_wallet-IsKeyed user key db.0 db.1);
    update = λ w db. (updated w db.0, updated-IsKeyed w db.0 db.1);
    get_update = λ user w w' db h id owner key default.
        get_default_wallet-updated user w w' db.0 db.1 h id owner key default;
  }
