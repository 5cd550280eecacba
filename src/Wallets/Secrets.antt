-- ===== src/Wallets/Secrets.antt =====
-- bot/core/use_cases/wallet: get_secrets.py and change_password.py.
pub mod Reseal
use my_mtlwallet_bot.Prelude.{ℕ, String, Bool, true, false, Option, none, some, if◌then◌else◌, ◌==◌}
use my_mtlwallet_bot.Wallets.{Wallet, given, WalletRepository, EncryptionService, Mode, free, user}

pub record WalletSecrets : Type 0 where
  pub secret_key : String
  pub seed_phrase : Option String

-- How `ChangeWalletPassword.execute` ends.
pub data Change (S : Type 0) : Type 0 where
  done : Bool → S → Change S
  value_error : Change S

-- `if x is None: x = y`
abbrev pub or_else : Option String → Option String → Option String
or_else none y = y
or_else (some x) y = some x

module _ (e : EncryptionService) where
  open e use {
    encrypt, decrypt, encrypt_wallet_container, decrypt_wallet_secret, decrypt_wallet_seed,
  }

  -- The call on the container where there is one.
  abbrev pub opened : (String → String → Option String) → Option String → String → Option String
  opened open_block none pin = none
  opened open_block (some container) pin = open_block container pin

  -- `decrypt(text, key)` where there is a text
  abbrev pub decrypted : Option String → String → Option String
  decrypted none key = none
  decrypted (some text) key = decrypt text key

  abbrev pub secret_of : Wallet → String → Option String
  secret_of w pin =
      or_else (opened decrypt_wallet_secret (given w.wallet_crypto_v2) pin)
        (decrypted (given w.secret_key) pin)

  module _ (repository : WalletRepository) where
    open repository use {Db, get_default_wallet, update}

    -- GetWalletSecrets.execute, past its lookup
    unfoldable pub secrets_of : Wallet → String → Option WalletSecrets
    secrets_of w pin = elim (secret_of w pin) [
      | none ↦ none
      | some secret ↦ some (record {
        secret_key = secret;
        seed_phrase =
            or_else (opened decrypt_wallet_seed (given w.wallet_crypto_v2) pin)
              (decrypted (given w.seed_key) secret);
      })
    ]

    -- GetWalletSecrets.execute
    unfoldable pub get_wallet_secrets : ℕ → String → Db → Option WalletSecrets
    get_wallet_secrets user_id pin db = elim (get_default_wallet user_id db) [
      | none ↦ none
      | some w ↦ secrets_of w pin
    ]

    -- The seed that the new container takes: of the container that opened, or of the legacy field.
    legacy_seed : Option String → Option String → Option String → Option String
    legacy_seed seed none secret = seed
    legacy_seed seed (some seed_key) none = seed
    legacy_seed seed (some seed_key) (some secret) = decrypt seed_key secret

    seed_for : Wallet → String → Option String
    unfolding legacy_seed
    seed_for w pin =
        let seed = opened decrypt_wallet_seed (given w.wallet_crypto_v2) pin in
        elim (opened decrypt_wallet_secret (given w.wallet_crypto_v2) pin) [
          | some secret ↦ seed
          | none ↦ elim (given w.secret_key) [
            | none ↦ seed
            | some text ↦ legacy_seed seed (given w.seed_key) (given (decrypt text pin))
          ]
        ]

    abbrev pub mode_of : ℕ → Mode
    mode_of pin_type = if pin_type == 0 then free else user

    abbrev pub pin_for : Mode → String → Option String
    pin_for free new_pin = none
    pin_for user new_pin = some new_pin

    -- The wallet that `ChangeWalletPassword.execute` writes back.
    abbrev pub resealed : ℕ → Wallet → String → String → ℕ → String → Wallet
    resealed seal w secret new_pin pin_type container = record w {
      wallet_crypto_v2 = some container;
      secret_key = some (encrypt seal secret new_pin);
      use_pin = pin_type;
    }

    -- ChangeWalletPassword.execute
    unfoldable pub change_wallet_password : ℕ → ℕ → String → String → ℕ → Db → Change Db
    unfolding seed_for
    change_wallet_password seal user_id old_pin new_pin pin_type db =
        elim (get_default_wallet user_id db) [
          | none ↦ done false db
          | some w ↦ elim (secret_of w old_pin) [
            | none ↦ done false db
            | some secret ↦
                elim (encrypt_wallet_container seal secret (seed_for w old_pin) (mode_of pin_type)
                  (if w.is_free then "stellar_free" else "stellar_user")
                  (pin_for (mode_of pin_type) new_pin)) [
                    | none ↦ value_error
                    | some container ↦
                        done true (update (resealed seal w secret new_pin pin_type container) db)
                  ]
          ]
        ]
