-- ===== src/Wallets/Secrets/Reseal.antt =====
-- A change of password keeps the secret: what the old PIN opened, the new one opens.
use my_mtlwallet_bot.Prelude.{
  ℕ, String, ◌≡◌, refl, sym, ◌∙◌, subst, true, false, Option, none, some, if◌then◌else◌,
  Option-cases, inl, inr,
}
use text.Mathlib.Text.{◌==◌ as str_eq}
use my_mtlwallet_bot.Wallets.{Wallet, WalletRepository, EncryptionService, Mode, free, user}
use my_mtlwallet_bot.Wallets.Secrets.{
  WalletSecrets, done, secret_of, secrets_of, get_wallet_secrets, seed_for, mode_of, pin_for,
  resealed, change_wallet_password,
}

module _ (e : EncryptionService) (repository : WalletRepository) where
  open repository use {Db, get_default_wallet}

  -- A container that was just sealed opens with its PIN.
  unsealed :
      (mode : Mode) (seal : ℕ) (secret : String) (seed : Option String)
      (kind pin container : String)
      → e.encrypt_wallet_container seal secret seed mode kind (pin_for e repository mode pin)
        ≡ some container
      → (str_eq container "" ≡ false) × (e.decrypt_wallet_secret container pin ≡ some secret)
  unsealed free seal secret seed kind pin container h =
      e.secret_free seal secret seed kind pin container h
  unsealed user seal secret seed kind pin container h =
      e.secret_user seal secret seed kind pin container h

  secrets_of-some :
      (w : Wallet) (pin secret : String)
      → secret_of e w pin ≡ some secret
      → (s : WalletSecrets) × (secrets_of e repository w pin ≡ some s) × (s.secret_key ≡ secret)
  unfolding secrets_of
  secrets_of-some w pin secret h = rw (h, secrets_of) (_, refl, refl)

  secret_of-resealed :
      (seal : ℕ) (w : Wallet) (secret new_pin : String) (pin_type : ℕ) (container : String)
      → str_eq container "" ≡ false
      → e.decrypt_wallet_secret container new_pin ≡ some secret
      → secret_of e (resealed e repository seal w secret new_pin pin_type container) new_pin
        ≡ some secret
  secret_of-resealed seal w secret new_pin pin_type container f h = rw (f, h) refl

  module _ (seal user_id : ℕ) (old_pin new_pin : String) (pin_type : ℕ) (db : Db) where
    -- A change of password with a PIN that opens no secret answers False and writes nothing.
    pub change_wallet_password-refused :
        get_wallet_secrets e repository user_id old_pin db ≡ none
        → change_wallet_password e repository seal user_id old_pin new_pin pin_type db
          ≡ done false db
    unfolding change_wallet_password get_wallet_secrets secrets_of
    change_wallet_password-refused h = elim (Option-cases (get_default_wallet user_id db)) [
      | inl w ↦ rw (w, change_wallet_password) refl
      | inr (wallet, w) ↦ elim (Option-cases (secret_of e wallet old_pin)) [
        | inl n ↦ rw (w, n, change_wallet_password) refl
        | inr (secret, x) ↦ let g = rw (w, x, get_wallet_secrets, secrets_of) at h in cc
      ]
    ]

    abbrev sealed : Wallet → String → Option String
    sealed w secret =
        e.encrypt_wallet_container seal secret (seed_for e repository w old_pin)
          (mode_of e repository pin_type) (if w.is_free then "stellar_free" else "stellar_user")
          (pin_for e repository (mode_of e repository pin_type) new_pin)

    -- After a change of password that succeeds, reading the secrets with the new PIN succeeds and
    -- gives the secret key that the old PIN gave before.
    pub change_wallet_password-secret :
        (db' : Db)
        → change_wallet_password e repository seal user_id old_pin new_pin pin_type db
          ≡ done true db'
        → (s s' : WalletSecrets) × (get_wallet_secrets e repository user_id old_pin db ≡ some s)
          × (get_wallet_secrets e repository user_id new_pin db' ≡ some s')
          × (s'.secret_key ≡ s.secret_key)
    unfolding change_wallet_password get_wallet_secrets
    change_wallet_password-secret db' h = elim (Option-cases (get_default_wallet user_id db)) [
      | inl w ↦ let g = rw (w, change_wallet_password) at h in cc
      | inr (wallet, w) ↦ elim (Option-cases (secret_of e wallet old_pin)) [
        | inl n ↦ let g = rw (w, n, change_wallet_password) at h in cc
        | inr (secret, x) ↦ elim (Option-cases (sealed wallet secret)) [
          | inl n ↦ let g = rw (w, x, n, change_wallet_password) at h in cc
          | inr (container, c) ↦
              let g = rw (w, x, c, change_wallet_password) at h in
              let (full, opens) =
                unsealed (mode_of e repository pin_type) seal secret _ _ new_pin container c in
              let w' = resealed e repository seal wallet secret new_pin pin_type container in
              let same : repository.update w' db ≡ db' = cc in
              let found : get_default_wallet user_id db' ≡ some w' =
                subst (λ d. get_default_wallet user_id d ≡ some w') same
                  (repository.get_update user_id wallet w' db w refl refl refl refl) in
              let before = secrets_of-some wallet old_pin secret x in
              let after =
                secrets_of-some w' new_pin secret
                  (secret_of-resealed seal wallet secret new_pin pin_type container full opens) in
              (
                before.0,
                after.0,
                rw (w, get_wallet_secrets) before.1,
                rw (found, get_wallet_secrets) after.1,
                after.2 ∙ sym before.2,
              )
        ]
      ]
    ]
