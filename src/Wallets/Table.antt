-- ===== src/Wallets/Table.antt =====
-- bot/infrastructure/persistence/sqlalchemy_wallet_repository.py: the table of wallets, with each
-- statement as a function on its rows. The rows stand in the order of their creation; `next_id` is
-- the database's counter of ids. A select that expects one row and finds more raises.
pub mod Keys
pub mod Default
pub mod Implements
use text.Mathlib.Text.{◌==◌ as str_eq}
use my_mtlwallet_bot.Prelude.{
  ℕ, ◌+◌, String, Bool, true, false, not, ◌&&◌, Option, none, some, List, [], ◌∷◌, ◌++◌, map, ltb,
  leb, ◌==◌, if◌then◌else◌, is_some, length,
}
use my_mtlwallet_bot.Wallets.{Wallet}

-- core/domain/value_objects.py
pub record Balance : Type 0 where
  -- as Horizon gave it
  pub asset_code : Option String
  pub asset_issuer : Option String
  pub asset_type : String
  pub balance : String
  pub buying_liabilities : String
  pub selling_liabilities : String

-- The part of a wallet entity that caches what Horizon answered.
pub record Cache : Type 0 where
  pub balances : Option (List Balance)
  pub balances_event_id : String
  pub last_event_id : String
  pub balances_updated_at : Option ℕ

-- A row; the flags are 0 or 1.
pub record Row : Type 0 where
  pub row_id : ℕ
  pub user_id : ℕ
  pub public_key : String
  pub default_wallet : ℕ
  pub free_wallet : ℕ
  pub use_pin : ℕ
  pub secret_key : Option String
  pub seed_key : Option String
  pub wallet_crypto_v2 : Option String
  pub need_delete : ℕ
  pub balances : Option String
  pub balances_event_id : String
  pub last_event_id : String
  pub balances_updated_at : Option ℕ

pub record Table : Type 0 where
  pub rows : List Row
  pub next_id : ℕ

-- SELECT and UPDATE with a condition.
abbrev pub select {ℓ} : {A : Type ℓ} → (A → Bool) → List A → List A
select test [] = []
select test (r ∷ rs) = if test r then r ∷ select test rs else select test rs

abbrev pub amend {ℓ} : {A : Type ℓ} → (A → Bool) → (A → A) → List A → List A
amend test f [] = []
amend test f (r ∷ rs) = (if test r then f r else r) ∷ amend test f rs

-- The first row by `order_by(id.desc())`.
abbrev pub later_row : Row → Option Row → Row
later_row r none = r
later_row r (some s) = if ltb s.row_id r.row_id then r else s

abbrev pub newest : List Row → Option Row
newest [] = none
newest (r ∷ rs) = some (later_row r (newest rs))

-- `scalar_one_or_none`
pub data One (A : Type 0) : Type 0 where
  missing : One A
  found : A → One A
  ambiguous : One A

abbrev pub one_or_none : {A : Type 0} → List A → One A
one_or_none [] = missing
one_or_none (a ∷ []) = found a
one_or_none (a ∷ b ∷ rest) = ambiguous

abbrev pub flag : Bool → ℕ
flag b = if b then 1 else 0

abbrev pub is_active : ℕ → Row → Bool
is_active user_id r = (r.user_id == user_id) && (r.need_delete == 0)

abbrev pub is_default_of : ℕ → Row → Bool
is_default_of user_id r = is_active user_id r && (r.default_wallet == 1)

abbrev pub is_keyed : ℕ → String → Row → Bool
is_keyed user_id public_key r = is_active user_id r && str_eq r.public_key public_key

abbrev pub has_id : ℕ → Row → Bool
has_id row_id r = r.row_id == row_id

-- jsonpickle
pub record Pickle : Type 0 where
  pub encode : List Balance → String
  -- none where decoding raises
  pub decode : String → Option (List Balance)

-- `str(x or "0")`
abbrev pub or_zero : String → String
or_zero s = if str_eq s "" then "0" else s

abbrev pub or_empty : Option (List Balance) → List Balance
or_empty none = []
or_empty (some bs) = bs

module _ (pickle : Pickle) where
  abbrev pub unpickled : Option String → Option (List Balance)
  unpickled none = none
  unpickled (some text) = if str_eq text "" then none else some (or_empty (pickle.decode text))

  abbrev pub pickled : Option (List Balance) → Option String
  pickled none = none
  pickled (some bs) = some (pickle.encode bs)

  -- The cache part of _to_entity.
  abbrev pub cache_of : Row → Cache
  cache_of r = record {
    balances = unpickled r.balances;
    balances_event_id = or_zero r.balances_event_id;
    last_event_id = or_zero r.last_event_id;
    balances_updated_at = r.balances_updated_at;
  }

  -- _to_entity
  abbrev pub to_entity : Row → Wallet
  to_entity r = record {
    wallet_id = r.row_id;
    user_id = r.user_id;
    public_key = r.public_key;
    is_default = not (r.default_wallet == 0);
    is_free = not (r.free_wallet == 0);
    use_pin = r.use_pin;
    secret_key = r.secret_key;
    seed_key = r.seed_key;
    wallet_crypto_v2 = r.wallet_crypto_v2;
  }

  abbrev pub entity_of : Option Row → Option Wallet
  entity_of none = none
  entity_of (some r) = some (to_entity r)

  -- get_by_user_id
  unfoldable pub get_by_user_id : ℕ → Table → List Wallet
  get_by_user_id user_id t = map to_entity (select (λ r. r.user_id == user_id) t.rows)

  -- get_all_active
  unfoldable pub get_all_active : ℕ → Table → List Wallet
  get_all_active user_id t = map to_entity (select (is_active user_id) t.rows)

  -- get_default_wallet
  unfoldable pub get_default_wallet : ℕ → Table → Option Wallet
  get_default_wallet user_id t = entity_of (newest (select (is_default_of user_id) t.rows))

  abbrev pub one_entity : One Row → One Wallet
  one_entity missing = missing
  one_entity (found r) = found (to_entity r)
  one_entity ambiguous = ambiguous

  -- get_by_id
  unfoldable pub get_by_id : ℕ → Table → One Wallet
  get_by_id wallet_id t = one_entity (one_or_none (select (has_id wallet_id) t.rows))

  -- get_by_public_key; keys are not unique, and two rows with one raise
  unfoldable pub get_by_public_key : String → Table → One Wallet
  get_by_public_key public_key t =
      one_entity (one_or_none (select (λ r. str_eq r.public_key public_key) t.rows))

  -- get_all_deleted
  unfoldable pub get_all_deleted : Table → List Wallet
  get_all_deleted t = map to_entity (select (λ r. r.need_delete == 1) t.rows)

  -- create
  unfoldable pub create : Wallet → Table → Wallet × Table
  create w t =
      let r : Row = record {
        row_id = t.next_id;
        user_id = w.user_id;
        public_key = w.public_key;
        default_wallet = flag w.is_default;
        free_wallet = flag w.is_free;
        use_pin = w.use_pin;
        secret_key = w.secret_key;
        seed_key = w.seed_key;
        wallet_crypto_v2 = w.wallet_crypto_v2;
        need_delete = 0;
        balances = none;
        balances_event_id = "0";
        last_event_id = "0";
        balances_updated_at = none;
      } in
      (to_entity r, record { rows = t.rows ++ r ∷ []; next_id = t.next_id + 1 })

  abbrev pub updated_at : Cache → Option ℕ
  updated_at c = elim c.balances [ none ↦ none | some bs ↦ c.balances_updated_at ]

  -- What update writes into a row.
  abbrev pub overwritten : Wallet → Cache → Row → Row
  overwritten w c r = record r {
    default_wallet = flag w.is_default;
    balances = pickled c.balances;
    balances_updated_at = updated_at c;
    balances_event_id = c.balances_event_id;
    last_event_id = if str_eq c.last_event_id "" then r.last_event_id else c.last_event_id;
    secret_key = w.secret_key;
    seed_key = w.seed_key;
    wallet_crypto_v2 = w.wallet_crypto_v2;
    use_pin = w.use_pin;
    free_wallet = flag w.is_free;
  }

  -- update; none is the ValueError of a wallet that is not there
  unfoldable pub update : Wallet → Cache → Table → Option Table
  update w c t =
      if is_some (newest (select (has_id w.wallet_id) t.rows))
      then some (record t { rows = amend (has_id w.wallet_id) (overwritten w c) t.rows })
      else none

  -- update_balance_cache; on a write conflict the session is rolled back to what was committed
  unfoldable pub update_balance_cache : Option Table → ℕ → Cache → Table → Bool × Table
  update_balance_cache (some committed) wallet_id c t = (false, committed)
  update_balance_cache none wallet_id c t = (
    true,
    record t {
      rows =
          amend (has_id wallet_id)
            (λ r. record r {
              balances = pickled c.balances;
              balances_event_id = c.balances_event_id;
              balances_updated_at = c.balances_updated_at;
            })
            t.rows;
    },
  )

abbrev pub without_cache : Row → Row
without_cache r = record r { balances = none; balances_event_id = "0"; balances_updated_at = none }

-- reset_balance_cache; none where more than one row fits
unfoldable pub reset_balance_cache : ℕ → Table → Option Table
reset_balance_cache user_id t = elim (one_or_none (select (is_default_of user_id) t.rows)) [
  | missing ↦ some t
  | found r ↦ some (record t { rows = amend (has_id r.row_id) without_cache t.rows })
  | ambiguous ↦ none
]

-- reset_balance_cache_by_wallet_id
unfoldable pub reset_balance_cache_by_wallet_id : ℕ → Table → Bool × Table
reset_balance_cache_by_wallet_id wallet_id t = (
  ltb 0 (length (select (has_id wallet_id) t.rows)),
  record t { rows = amend (has_id wallet_id) without_cache t.rows },
)

abbrev is_target : ℕ → String → Option ℕ → Row → Bool
is_target user_id public_key none r = (r.user_id == user_id) && str_eq r.public_key public_key
is_target user_id public_key (some wallet_id) r =
    (r.user_id == user_id) && str_eq r.public_key public_key && (r.row_id == wallet_id)

abbrev delete_row : Bool → ℕ → List Row → List Row
delete_row true row_id rows = select (λ r. not (r.row_id == row_id)) rows
delete_row false row_id rows = amend (has_id row_id) (λ r. record r { need_delete = 1 }) rows

-- delete; none where more than one row fits
unfoldable pub delete : ℕ → String → Bool → Option ℕ → Table → Option Table
delete user_id public_key erase wallet_id t =
    if ltb user_id 1
    then some t
    else (elim (one_or_none (select (is_target user_id public_key wallet_id) t.rows)) [
      | missing ↦ some t
      | found r ↦ some (record t { rows = delete_row erase r.row_id t.rows })
      | ambiguous ↦ none
    ])

-- delete_all_by_user
unfoldable pub delete_all_by_user : ℕ → Table → Table
delete_all_by_user user_id t = if ltb user_id 1 then t else record t {
  rows = amend (λ r. r.user_id == user_id) (λ r. record r { need_delete = 1 }) t.rows;
}

-- count_free_wallets
unfoldable pub count_free_wallets : ℕ → Table → ℕ
count_free_wallets user_id t =
    length (select (λ r. is_active user_id r && (r.free_wallet == 1)) t.rows)

abbrev pub with_default : ℕ → Row → Row
with_default n r = record r { default_wallet = n }

-- set_default_wallet
unfoldable pub set_default_wallet : ℕ → String → Table → Bool × Table
set_default_wallet user_id public_key t =
    elim (newest (select (is_keyed user_id public_key) t.rows)) [
      | none ↦ (false, t)
      | some target ↦
          let unset = amend (is_active user_id) (with_default 0) t.rows in
          (
            ltb 0 (length (select (has_id target.row_id) unset)),
            record t { rows = amend (has_id target.row_id) (with_default 1) unset },
          )
    ]

-- normalize_default_wallets
unfoldable pub normalize_default_wallets : ℕ → Table → Bool × Table
normalize_default_wallets user_id t =
    let defaults = select (is_default_of user_id) t.rows in
    elim (newest defaults) [
      | none ↦ (false, t)
      | some keep ↦ if leb (length defaults) 1 then (false, t) else (
        true,
        record t {
          rows =
              amend (λ r. is_default_of user_id r && not (has_id keep.row_id r)) (with_default 0)
                t.rows;
        },
      )
    ]

-- get_info
unfoldable pub get_info : ℕ → String → Table → String
get_info user_id public_key t = elim (newest (select (is_keyed user_id public_key) t.rows)) [
  | none ↦ "(нет данных)"
  | some r ↦
      if r.free_wallet == 1
      then "(free)"
      else if r.use_pin == 0
      then "(no pin)"
      else if r.use_pin == 1
      then "(pin)"
      else if r.use_pin == 2
      then "(pass)"
      else if r.use_pin == 10
      then "(r/o)"
      else "(?)"
]
