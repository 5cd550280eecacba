-- ===== src/Wallets.antt =====
-- bot/core/domain/entities.py (Wallet), and what the use cases of bot/core/use_cases/wallet rely on:
-- the wallet repository and the encryption service, as bot/core/interfaces describe them.
pub mod Secrets
pub mod AddWallet
pub mod Table
pub mod Balances
use text.Mathlib.Text.{◌==◌ as str_eq}
use my_mtlwallet_bot.Prelude.{
  ℕ, String, ◌≡◌, Bool, true, false, Option, none, some, if◌then◌else◌, ◌==◌,
}

-- The fields that the modelled code reads or writes.
pub record Wallet : Type 0 where
  pub wallet_id : ℕ
  pub user_id : ℕ
  pub public_key : String
  pub is_default : Bool
  pub is_free : Bool
  pub use_pin : ℕ
  pub secret_key : Option String
  pub seed_key : Option String
  pub wallet_crypto_v2 : Option String

-- An optional text that is missing or empty counts as missing in a condition.
abbrev pub given : Option String → Option String
given none = none
given (some s) = if str_eq s "" then none else some s

-- IWalletRepository, as far as it is used: a wallet read for a user and written back with its own
-- number, owner and key is what the next read finds.
pub record WalletRepository : Type 1 where
  pub Db : Type 0
  pub get_default_wallet : ℕ → Db → Option Wallet
  pub count_free_wallets : ℕ → Db → ℕ
  pub create : Wallet → Db → Wallet × Db
  pub set_default_wallet : ℕ → String → Db → Db
  pub update : Wallet → Db → Db
  pub get_update :
      (user : ℕ) (w w' : Wallet) (db : Db)
      → get_default_wallet user db ≡ some w
      → w'.wallet_id ≡ w.wallet_id
      → w'.user_id ≡ w.user_id
      → w'.public_key ≡ w.public_key
      → w'.is_default ≡ w.is_default
      → get_default_wallet user (update w' db) ≡ some w'

pub data Mode : Type 0 where
  free user : Mode

-- IEncryptionService. `seal` numbers a call of the encryption, whose result is random.
pub record EncryptionService : Type 0 where
  pub encrypt : ℕ → String → String → String
  pub decrypt : String → String → Option String
  -- none: the ValueError of a missing PIN
  pub encrypt_wallet_container :
      ℕ → String → Option String → Mode → String → Option String → Option String
  pub decrypt_wallet_secret : String → String → Option String
  pub decrypt_wallet_seed : String → String → Option String
  pub decrypt_encrypt :
      (seal : ℕ) (text key : String) → decrypt (encrypt seal text key) key ≡ some text
  pub secret_user :
      (seal : ℕ) (secret : String) (seed : Option String) (kind pin container : String)
      → encrypt_wallet_container seal secret seed user kind (some pin) ≡ some container
      → (str_eq container "" ≡ false) × (decrypt_wallet_secret container pin ≡ some secret)
  pub secret_free :
      (seal : ℕ) (secret : String) (seed : Option String) (kind pin container : String)
      → encrypt_wallet_container seal secret seed free kind none ≡ some container
      → (str_eq container "" ≡ false) × (decrypt_wallet_secret container pin ≡ some secret)
