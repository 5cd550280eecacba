-- ===== src/Wallets/Balances/Cached.antt =====
-- What a live read of bot/core/use_cases/wallet/get_balance.py stores is what the next reads answer.
use text.Mathlib.Text.{◌==◌ as str_eq}
use my_mtlwallet_bot.Prelude.{
  ℕ, ◌+◌, ◌≤◌, ◌≡◌, ◌≢◌, refl, sym, ap, ◌∙◌, subst, String, true, false, none, some, List, [], ◌∷◌,
  arith, eq_refl, if◌then◌else◌, Bool-cases, Option-cases, inl, inr,
}
use my_mtlwallet_bot.Wallets.Table.{
  Balance, Row, Table, Pickle, select, amend, newest, has_id, is_default_of, or_zero, cache_of,
  update_balance_cache,
}
use my_mtlwallet_bot.Wallets.Table.Keys.{All-IsIn, amend-map, newest-map, select-map}
use my_mtlwallet_bot.Wallets.Balances.{
  Horizon, Answer, balances, is_cache_fresh, live_balances, balances_of, get_wallet_balance,
  cache_ttl,
}

-- What jsonpickle promises of a list: it comes back as it went, and its text is not empty.
pub record IsFaithful (pickle : Pickle) (bs : List Balance) : Type 0 where
  pub decode_encode : pickle.decode (pickle.encode bs) ≡ some bs
  pub full : str_eq (pickle.encode bs) "" ≡ false

or_zero_twice : (s : String) → or_zero (or_zero s) ≡ or_zero s
or_zero_twice s = elim (Bool-cases (str_eq s "")) [ inl e ↦ rw e refl | inr e ↦ rw (e, e) refl ]

-- A write into one row that leaves its owner and its flags alone shows in the selection.
module _ (f : Row → Row) (k : ℕ) (user : ℕ) (keeps_id : (r : Row) → (f r).row_id ≡ r.row_id)
    (keeps_default : (r : Row) → is_default_of user (f r) ≡ is_default_of user r) where
  abbrev write : Row → Row
  write r = if has_id k r then f r else r

  write-row_id : (r : Row) → (write r).row_id ≡ r.row_id
  write-row_id r = elim (Bool-cases (has_id k r)) [ inl e ↦ rw e (keeps_id r) | inr e ↦ rw e refl ]

  write-default : (r : Row) → is_default_of user (write r) ≡ is_default_of user r
  write-default r = elim (Bool-cases (has_id k r)) [
    | inl e ↦ rw e (keeps_default r)
    | inr e ↦ rw e refl
  ]

  newest-amend :
      (rs : List Row) (row : Row)
      → newest (select (is_default_of user) rs) ≡ some row
      → row.row_id ≡ k
      → newest (select (is_default_of user) (amend (has_id k) f rs)) ≡ some (f row)
  newest-amend rs row e id =
      let own : has_id k row ≡ true = ground arith in
      rw (amend-map (has_id k) f rs) (
        ap newest (
          select-map write write-row_id (is_default_of user) rs (
            All-IsIn (λ r. is_default_of user (write r) ≡ is_default_of user r) rs
              (λ r i. write-default r)))
        ∙ newest-map write write-row_id (select (is_default_of user) rs)
        ∙ rw (e, own) refl)

module _ (pickle : Pickle) (horizon : Horizon) (user now : ℕ) (t : Table) where
  -- A row after a live read for the wallet of `row`.
  abbrev cached : List Balance → Row → Row → Row
  cached bs row r = record r {
    balances = some (pickle.encode bs);
    balances_event_id = or_zero row.last_event_id;
    balances_updated_at = some now;
  }

  abbrev with_cached : List Balance → Row → Table
  with_cached bs row = record t { rows = amend (has_id row.row_id) (cached bs row) t.rows }

  cached-fresh :
      (bs : List Balance) (row : Row) (later : ℕ)
      → IsFaithful pickle bs
      → bs ≢ []
      → later ≤ now + cache_ttl
      → is_cache_fresh later (cache_of pickle (cached bs row row)) ≡ true
  unfolding is_cache_fresh
  cached-fresh [] row later faithful full soon = absurd (full refl)
  cached-fresh (b ∷ bs) row later faithful full soon =
      rw
        (
          faithful.full,
          faithful.decode_encode,
          or_zero_twice row.last_event_id,
          eq_refl (or_zero row.last_event_id),
        )
        (ground arith)

  answered_again :
      (bs : List Balance) (row : Row) (later : ℕ) (others : Horizon)
      → IsFaithful pickle bs
      → newest (select (is_default_of user) t.rows) ≡ some row
      → bs ≢ []
      → later ≤ now + cache_ttl
      → get_wallet_balance pickle others none user none false later (with_cached bs row)
        ≡ (balances bs, with_cached bs row)
  unfolding get_wallet_balance balances_of
  answered_again bs row later others faithful e full soon =
      rw
        (
          newest-amend (cached bs row) row.row_id user (λ r. refl) (λ r. refl) t.rows row e refl,
          get_wallet_balance,
          balances_of,
          cached-fresh bs row later faithful full soon,
          faithful.full,
          faithful.decode_encode,
        )
        refl

  -- After a forced read of the default wallet's balances that gives some and meets no write
  -- conflict, an unforced read of the same table within an hour gives the same balances from the
  -- cache, whatever Horizon would answer, and changes nothing; jsonpickle gives the list back.
  pub get_wallet_balance_again :
      (bs : List Balance) (t' : Table)
      → IsFaithful pickle bs
      → get_wallet_balance pickle horizon none user none true now t ≡ (balances bs, t')
      → bs ≢ []
      → (later : ℕ) (others : Horizon) → later ≤ now + cache_ttl
      → get_wallet_balance pickle others none user none false later t' ≡ (balances bs, t')
  unfolding get_wallet_balance balances_of update_balance_cache
  get_wallet_balance_again bs t' faithful h full later others soon =
      elim (Option-cases (newest (select (is_default_of user) t.rows))) [
        | inl e ↦ let g = rw (e, get_wallet_balance) at h in cc
        | inr (row, e) ↦ elim (Option-cases (live_balances horizon row.public_key)) [
          | inl gone ↦
              let g = rw (e, get_wallet_balance, balances_of, gone) at h in absurd (full (cc))
          | inr (ls, live) ↦
              let g : ◌≡◌ {A = Answer × Table} (balances ls, with_cached ls row) (balances bs, t') =
                rw (e, get_wallet_balance, balances_of, live) at h in
              let same : ls ≡ bs = cc in
              let table : with_cached ls row ≡ t' = ap (λ (x : Answer × Table). x.1) g in
              subst
                (λ x.
                  get_wallet_balance pickle others none user none false later x ≡ (balances bs, x))
                table
                (subst
                  (λ x.
                    get_wallet_balance pickle others none user none false later (with_cached ls row)
                    ≡ (balances x, with_cached ls row))
                  same
                  (answered_again ls row later others
                    (subst (IsFaithful pickle) (sym same) faithful) e (λ p. full (sym same ∙ p))
                    soon))
        ]
      ]
