-- ===== src/Wallets/AddWallet.antt =====
-- bot/core/use_cases/wallet/add_wallet.py.
use my_mtlwallet_bot.Prelude.{
  ℕ, String, Bool, true, not, ◌&&◌, Option, none, some, is_some, if◌then◌else◌, ltb,
}
use my_mtlwallet_bot.Wallets.{Wallet, given, WalletRepository}

-- The keyword arguments of `AddWallet.execute` after the user and the public key.
pub record NewWallet : Type 0 where
  pub secret_key : Option String
  pub is_free : Bool
  pub is_default : Bool
  pub seed_key : Option String
  pub wallet_crypto_v2 : Option String
  pub is_read_only : Bool

-- `use_pin`: 10 for a read-only wallet, 1 for a secret of the user's own
unfoldable pub pin_state : NewWallet → ℕ
pin_state new =
    if new.is_read_only
    then 10
    else if is_some (given new.secret_key) && not new.is_free
    then 1
    else 0

-- The entity is set to 10 and then to 0 where there is neither a secret nor the read-only flag.
unfoldable pub wallet_for : ℕ → String → NewWallet → Wallet
wallet_for user_id public_key new = record {
  wallet_id = 0;
  user_id = user_id;
  public_key = public_key;
  is_default = new.is_default;
  is_free = new.is_free;
  use_pin =
      if not (is_some (given new.secret_key)) && not new.is_read_only then 0 else pin_state new;
  secret_key = new.secret_key;
  seed_key = new.seed_key;
  wallet_crypto_v2 = new.wallet_crypto_v2;
}

module _ (repository : WalletRepository) where
  open repository use {Db, count_free_wallets, create, set_default_wallet}

  -- AddWallet.execute; none is the ValueError of a fourth free wallet
  unfoldable pub add_wallet : ℕ → String → NewWallet → Db → Option Wallet × Db
  add_wallet user_id public_key new db =
      let (created, db') = create (wallet_for user_id public_key new) db in
      if new.is_free && ltb 2 (count_free_wallets user_id db)
      then (none, db)
      else if new.is_default
      then (some (record created { is_default = true }), set_default_wallet user_id public_key db')
      else (some created, db')
