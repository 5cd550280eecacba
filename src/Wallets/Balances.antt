-- ===== src/Wallets/Balances.antt =====
-- bot/core/use_cases/wallet/get_balance.py: the balances of an account, with the reserve that it
-- locks, and their cache in the wallet's row. Horizon's answers and the arithmetic on decimal texts
-- are arguments; the reserve is counted in halves of an XLM.
pub mod Cached
use text.Mathlib.Text.{◌==◌ as str_eq}
use my_mtlwallet_bot.Prelude.{
  ℕ, ◌+◌, ◌-◌, String, Bool, true, false, not, ◌||◌, ◌&&◌, Option, none, some, List, [], ◌∷◌, ◌++◌,
  leb, ◌==◌, if◌then◌else◌, length,
}
use my_mtlwallet_bot.Wallets.{Wallet, given}
use my_mtlwallet_bot.Wallets.Table.{
  Balance, Cache, Row, Table, Pickle, select, newest, is_default_of, to_entity, cache_of,
  update_balance_cache,
}

-- An entry of the account's `balances`.
pub record RawBalance : Type 0 where
  pub asset_type : String
  pub balance : String
  pub buying_liabilities : Option String
  pub selling_liabilities : Option String
  pub asset_code : Option String
  pub asset_issuer : Option String

pub record Account : Type 0 where
  pub num_sponsoring : ℕ
  pub signers : ℕ
  pub entries : ℕ
  pub balances : List RawBalance

pub record IssuedAsset : Type 0 where
  pub asset_code : String
  pub asset_type : String

-- What Horizon answers for a key, and `str(float(text) + halves * 0.5)`.
pub record Horizon : Type 0 where
  pub account_details : String → Option Account
  pub selling_offers : String → ℕ
  pub assets_by_issuer : String → List IssuedAsset
  pub plus_halves : String → ℕ → String

-- How `GetWalletBalance.execute` ends.
pub data Answer : Type 0 where
  balances : List Balance → Answer
  value_error : Answer

abbrev pub cache_ttl : ℕ
cache_ttl = 3600

abbrev pub is_empty : List Balance → Bool
is_empty [] = true
is_empty (b ∷ bs) = false

abbrev pub lacks : Option (List Balance) → Bool
lacks none = true
lacks (some bs) = is_empty bs

-- The tail of _is_cache_fresh.
abbrev pub is_young : Option ℕ → ℕ → Bool
is_young none now = false
is_young (some at) now = leb (now - at) cache_ttl

-- _is_cache_fresh
unfoldable pub is_cache_fresh : ℕ → Cache → Bool
is_cache_fresh now c =
    if lacks c.balances || not (str_eq c.balances_event_id c.last_event_id)
    then false
    else is_young c.balances_updated_at now

abbrev pub or_text : Option String → String → String
or_text none default = default
or_text (some text) default = text

-- `1.0`, two halves, and a half for each subentry; the account's own signer and its native balance
-- are not counted.
unfoldable pub lock_halves : Account → ℕ → ℕ
lock_halves account offers =
    2
    + account.num_sponsoring
    + account.signers
    + length account.balances
    + account.entries
    + offers
    - 2

unfoldable pub domain_balance : Horizon → ℕ → RawBalance → Balance
domain_balance horizon halves b =
    let selling = or_text b.selling_liabilities "0" in
    if str_eq b.asset_type "native"
    then record {
      asset_code = some "XLM";
      asset_issuer = b.asset_issuer;
      asset_type = b.asset_type;
      balance = b.balance;
      buying_liabilities = or_text b.buying_liabilities "0";
      selling_liabilities = horizon.plus_halves selling halves;
    }
    else record {
      asset_code = b.asset_code;
      asset_issuer = b.asset_issuer;
      asset_type = b.asset_type;
      balance = b.balance;
      buying_liabilities = or_text b.buying_liabilities "0";
      selling_liabilities = selling;
    }

unfoldable pub domain_balances : Horizon → ℕ → List RawBalance → List Balance
domain_balances horizon halves [] = []
domain_balances horizon halves (b ∷ bs) =
    let rest = domain_balances horizon halves bs in
    if str_eq b.asset_type "liquidity_pool_shares"
    then rest
    else domain_balance horizon halves b ∷ rest

unfoldable pub issued_balances : String → List IssuedAsset → List Balance
issued_balances key [] = []
issued_balances key (asset ∷ assets) =
    record {
      asset_code = some asset.asset_code;
      asset_issuer = some key;
      asset_type = asset.asset_type;
      balance = "unlimited";
      buying_liabilities = "0";
      selling_liabilities = "0";
    }
    ∷ issued_balances key assets

-- Steps 2 to 3.5 of execute; none where there is no account.
unfoldable pub live_balances : Horizon → String → Option (List Balance)
live_balances horizon key = elim (horizon.account_details key) [
  | none ↦ none
  | some account ↦ some (
      domain_balances horizon (lock_halves account (horizon.selling_offers key)) account.balances
      ++ issued_balances key (horizon.assets_by_issuer key))
]

module _ (pickle : Pickle) (horizon : Horizon) where
  -- The default wallet's balances: of the cache, or live and then cached.
  unfoldable pub balances_of : Option Table → Bool → ℕ → Row → Table → Answer × Table
  balances_of conflict force_refresh now r t =
      let c = cache_of pickle r in
      if not force_refresh && is_cache_fresh now c
      then (elim c.balances [ none ↦ (balances [], t) | some bs ↦ (balances bs, t) ])
      else (elim (live_balances horizon r.public_key) [
        | none ↦ (balances [], t)
        | some bs ↦
            let c' = record c {
              balances = some bs;
              balances_event_id = c.last_event_id;
              balances_updated_at = some now;
            } in
            (balances bs, (update_balance_cache pickle conflict r.row_id c' t).1)
      ])

  -- GetWalletBalance.execute; `conflict` is what a write conflict rolls the table back to
  unfoldable pub get_wallet_balance :
      Option Table → ℕ → Option String → Bool → ℕ → Table → Answer × Table
  get_wallet_balance conflict user_id public_key force_refresh now t = elim (given public_key) [
    | some key ↦ elim (live_balances horizon key) [
      | none ↦ (balances [], t)
      | some bs ↦ (balances bs, t)
    ]
    | none ↦ elim (newest (select (is_default_of user_id) t.rows)) [
      | none ↦ (value_error, t)
      | some r ↦ balances_of conflict force_refresh now r t
    ]
  ]
