-- ===== src/Tests/Tables.antt =====
-- The table of wallets on concrete rows: user 7 has an old wallet and a newer default one.
use my_mtlwallet_bot.Prelude.{
  ◌≤◌, ◌<◌, ◌↔◌, ◌≡◌, refl, true, false, none, some, [], ◌∷◌, length, arith,
}
use my_mtlwallet_bot.Wallets.{Wallet}
use my_mtlwallet_bot.Wallets.Table.{
  Balance, Row, Table, Pickle, select, is_default_of, with_default, to_entity, get_default_wallet,
  set_default_wallet, normalize_default_wallets,
}
use my_mtlwallet_bot.Wallets.Table.Keys.{IsKeyed}
use my_mtlwallet_bot.Wallets.Table.Default.{set_default_wallet-only, normalize_default_wallets-one}
use my_mtlwallet_bot.Wallets.Table.Implements.{updated, get_default_wallet-updated}
use my_mtlwallet_bot.Wallets.Balances.{
  Account, Horizon, balances, get_wallet_balance, balances_of, live_balances, domain_balances,
  domain_balance, issued_balances,
}
use my_mtlwallet_bot.Wallets.Table.{update_balance_cache}
use my_mtlwallet_bot.Wallets.Balances.Cached.{get_wallet_balance_again}

abbrev old_row : Row
old_row = record {
  row_id = 3;
  user_id = 7;
  public_key = "GA";
  default_wallet = 0;
  free_wallet = 1;
  use_pin = 0;
  secret_key = some "SA";
  seed_key = none;
  wallet_crypto_v2 = none;
  need_delete = 0;
  balances = none;
  balances_event_id = "0";
  last_event_id = "5";
  balances_updated_at = none;
}

abbrev new_row : Row
new_row = record old_row { row_id = 4; public_key = "GB"; default_wallet = 1 }

abbrev two_wallets : Table
two_wallets = record { rows = old_row ∷ (new_row ∷ []); next_id = 5 }

-- Both rows are marked as default.
abbrev two_defaults : Table
two_defaults = record two_wallets { rows = with_default 1 old_row ∷ (new_row ∷ []) }

two_wallets-IsKeyed : IsKeyed two_wallets
two_wallets-IsKeyed = ground arith

two_defaults-IsKeyed : IsKeyed two_defaults
two_defaults-IsKeyed = ground arith

abbrev xlm : Balance
xlm = record {
  asset_code = some "XLM";
  asset_issuer = none;
  asset_type = "native";
  balance = "5.0";
  buying_liabilities = "0";
  selling_liabilities = "1.5";
}

abbrev pickle : Pickle
pickle = record { encode = λ bs. "[xlm]"; decode = λ text. some (xlm ∷ []) }

set_default_wallet-only_example :
    let out = set_default_wallet 7 "GA" two_wallets in
    (out.0 ≡ true) × (select (is_default_of 7) out.1.rows ≡ with_default 1 old_row ∷ [])
set_default_wallet-only_example =
    set_default_wallet-only 7 two_wallets two_wallets-IsKeyed "GA" old_row refl

normalize_default_wallets-one_example :
    let out = normalize_default_wallets 7 two_defaults in
    (length (select (is_default_of 7) out.1.rows) ≤ 1)
    × (get_default_wallet pickle 7 out.1 ≡ get_default_wallet pickle 7 two_defaults)
    × ((out.0 ≡ true) ↔ (1 < length (select (is_default_of 7) two_defaults.rows)))
normalize_default_wallets-one_example =
    normalize_default_wallets-one 7 two_defaults two_defaults-IsKeyed pickle

abbrev read : Wallet
read = to_entity pickle new_row

get_default_wallet-updated_example :
    get_default_wallet pickle 7 (updated pickle (record read { use_pin = 1 }) two_wallets)
    ≡ some (record read { use_pin = 1 })
unfolding get_default_wallet
get_default_wallet-updated_example =
    get_default_wallet-updated pickle 7 read (record read { use_pin = 1 }) two_wallets
      two_wallets-IsKeyed refl refl refl refl refl

-- An account with its native balance alone.
abbrev account : Account
account = record {
  num_sponsoring = 1;
  signers = 1;
  entries = 0;
  balances =
      record {
        asset_type = "native";
        balance = "5.0";
        buying_liabilities = none;
        selling_liabilities = none;
        asset_code = none;
        asset_issuer = none;
      }
      ∷ [];
}

abbrev horizon : Horizon
horizon = record {
  account_details = λ key. some account;
  selling_offers = λ key. 0;
  assets_by_issuer = λ key. [];
  plus_halves = λ text halves. "1.5";
}

abbrev silent : Horizon
silent = record horizon { account_details = λ key. none }

abbrev after_read : Table
after_read = record two_wallets {
  rows =
      old_row
      ∷ (record new_row {
        balances = some "[xlm]";
        balances_event_id = "5";
        balances_updated_at = some 1000;
      }
          ∷ []);
}

live_read :
    get_wallet_balance pickle horizon none 7 none true 1000 two_wallets
    ≡ (balances (xlm ∷ []), after_read)
unfolding get_wallet_balance balances_of live_balances domain_balances domain_balance
    issued_balances update_balance_cache
live_read = refl

get_wallet_balance_again_example :
    get_wallet_balance pickle silent none 7 none false 4600 after_read
    ≡ (balances (xlm ∷ []), after_read)
get_wallet_balance_again_example =
    get_wallet_balance_again pickle horizon 7 1000 two_wallets (xlm ∷ []) after_read
      (record { decode_encode = refl; full = refl }) live_read (λ e. cc) 4600 silent (omega arith)
