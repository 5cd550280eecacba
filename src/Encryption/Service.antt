-- ===== src/Encryption/Service.antt =====
-- bot/infrastructure/services/encryption_service.py as the service that the wallet use cases call.
use text.Mathlib.Text.{◌==◌ as str_eq}
use my_mtlwallet_bot.Prelude.{ℕ, String, ◌≡◌, refl, ap, false, Option, none, some, inl}
use my_mtlwallet_bot.Wallets.{EncryptionService, Mode, free, user}
use my_mtlwallet_bot.Encryption.{
  Crypto, IsSound, Config, Reading, value, nothing, raised, Sealed, container, value_error, Random,
  derive_key, encrypt_wallet_container, decrypt_wallet_secret, decrypt_wallet_seed,
}
use my_mtlwallet_bot.Encryption.Rotation.{decrypt_wallet_secret-sealed, sealed_text}

abbrev pub mode_text : Mode → String
mode_text free = "free"
mode_text user = "user"

abbrev pub of_sealed : Sealed → Option String
of_sealed (container text) = some text
of_sealed value_error = none

-- An error of a library is not told apart from None here.
abbrev pub of_reading : Reading → Option String
of_reading (value text) = some text
of_reading nothing = none
of_reading raised = none

of_sealed-some : (s : Sealed) (text : String) → of_sealed s ≡ some text → s ≡ container text
of_sealed-some (container t) text h = cc
of_sealed-some value_error text h = cc

module _ (crypto : Crypto) (sound : IsSound crypto) (config : Config)
    (random : ℕ → Random crypto) where
  -- A container that was sealed opens, and is not empty.
  unsealed :
      (seal : ℕ) (secret : String) (seed : Option String) (mode kind : String) (pin : Option String)
      (text : String)
      → encrypt_wallet_container crypto config (random seal) secret seed mode kind pin
        ≡ container text
      → (str_eq text "" ≡ false)
        × (of_reading (decrypt_wallet_secret crypto config text pin) ≡ some secret)
  unsealed seal secret seed mode kind pin text h = (
    sealed_text crypto sound config (random seal) secret seed mode kind pin text h,
    ap of_reading (
        decrypt_wallet_secret-sealed crypto sound config (random seal) secret seed mode kind pin
          text h config (inl refl)),
  )

  -- In free mode the PIN plays no part.
  free_pin :
      (seal : ℕ) (secret : String) (seed : Option String) (kind : String) (pin pin' : Option String)
      → encrypt_wallet_container crypto config (random seal) secret seed "free" kind pin
        ≡ encrypt_wallet_container crypto config (random seal) secret seed "free" kind pin'
  unfolding encrypt_wallet_container derive_key
  free_pin seal secret seed kind pin pin' = refl

  pub secret_user_lem :
      (seal : ℕ) (secret : String) (seed : Option String) (kind pin text : String)
      → of_sealed
          (encrypt_wallet_container crypto config (random seal) secret seed "user" kind (some pin))
        ≡ some text
      → (str_eq text "" ≡ false)
        × (of_reading (decrypt_wallet_secret crypto config text (some pin)) ≡ some secret)
  secret_user_lem seal secret seed kind pin text h =
      unsealed seal secret seed "user" kind (some pin) text (of_sealed-some _ text h)

  pub secret_free_lem :
      (seal : ℕ) (secret : String) (seed : Option String) (kind pin text : String)
      → of_sealed
          (encrypt_wallet_container crypto config (random seal) secret seed "free" kind none)
        ≡ some text
      → (str_eq text "" ≡ false)
        × (of_reading (decrypt_wallet_secret crypto config text (some pin)) ≡ some secret)
  secret_free_lem seal secret seed kind pin text h =
      unsealed seal secret seed "free" kind (some pin) text
        (rw (free_pin seal secret seed kind none (some pin)) at (of_sealed-some _ text h))

  abbrev pub encryption_service : EncryptionService
  encryption_service = record {
    encrypt = crypto.cryptocode_encrypt;
    decrypt = crypto.cryptocode_decrypt;
    encrypt_wallet_container = λ seal secret seed mode kind pin. of_sealed (
        encrypt_wallet_container crypto config (random seal) secret seed (mode_text mode) kind pin);
    decrypt_wallet_secret =
        λ text pin. of_reading (decrypt_wallet_secret crypto config text (some pin));
    decrypt_wallet_seed =
        λ text pin. of_reading (decrypt_wallet_seed crypto config text (some pin));
    decrypt_encrypt = sound.cryptocode_opens;
    secret_user = secret_user_lem;
    secret_free = secret_free_lem;
  }
