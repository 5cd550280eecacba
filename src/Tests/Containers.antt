-- ===== src/Tests/Containers.antt =====
-- Containers on concrete inputs: one that the key of last year sealed, and a wrong PIN.
use my_mtlwallet_bot.Prelude.{String, ◌≡◌, refl, none, some, inr}
use my_mtlwallet_bot.Wallets.{given}
use my_mtlwallet_bot.Encryption.{
  Config, value, nothing, container, Random, derive_key, get_kek, get_optional_old_kek,
  encrypt_wallet_container, decrypt_wallet_secret, decrypt_wallet_seed, payload_of,
}
use my_mtlwallet_bot.Encryption.Rotation.{decrypt_wallet_seed-sealed}
use my_mtlwallet_bot.Tests.Ciphers.{plain_crypto, plain_crypto-IsSound}

abbrev last_year : Config
last_year = record { wallet_kek = "k1"; wallet_kek_old = none }

abbrev this_year : Config
this_year = record { wallet_kek = "k2"; wallet_kek_old = some " k1 " }

abbrev random : Random plain_crypto
random = record { salt = "s"; secret_nonce = "n"; seed_nonce = "m" }

abbrev sealed_text : String
sealed_text =
    plain_crypto.dumps
      (payload_of plain_crypto random "SA" (some "words") "user" "stellar_user" "1111|k1")

sealed_run :
    encrypt_wallet_container plain_crypto last_year random "SA"
      (some "words")
      "user"
      "stellar_user"
      (some "1111")
    ≡ container sealed_text
unfolding encrypt_wallet_container derive_key get_kek get_optional_old_kek
sealed_run = refl

decrypt_wallet_seed-sealed_example :
    (decrypt_wallet_secret plain_crypto this_year sealed_text (some "1111") ≡ value "SA")
    × ((words : String)
        → given (some "words") ≡ some words
        → decrypt_wallet_seed plain_crypto this_year sealed_text (some "1111") ≡ value words)
    × (given (some "words") ≡ none
        → decrypt_wallet_seed plain_crypto this_year sealed_text (some "1111") ≡ nothing)
unfolding get_optional_old_kek
decrypt_wallet_seed-sealed_example =
    decrypt_wallet_seed-sealed plain_crypto plain_crypto-IsSound last_year random "SA"
      (some "words") "user" "stellar_user" (some "1111") sealed_text sealed_run this_year (inr refl)
