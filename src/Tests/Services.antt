-- ===== src/Tests/Services.antt =====
-- The theorems on wallets, cheques and the notification history, on concrete inputs: a cipher that
-- hides nothing and a table in memory meet what the services are assumed to do.
use text.Mathlib.Text.{◌==◌ as str_eq}
use my_mtlwallet_bot.Prelude.{
  ℕ, ◌≡◌, refl, sym, ap, subst, String, true, false, Option, none, some, ◌==◌, if◌then◌else◌,
  Bool-cases, inl, inr,
}
use my_mtlwallet_bot.Wallets.{Wallet, given, WalletRepository, EncryptionService}
use my_mtlwallet_bot.Wallets.Secrets.{
  WalletSecrets, done, get_wallet_secrets, change_wallet_password,
}
use my_mtlwallet_bot.Wallets.Secrets.Reseal.{
  change_wallet_password-refused, change_wallet_password-secret,
}

abbrev pub Table : Type 0
Table = ℕ → Option Wallet

abbrev pub own : ℕ → Option Wallet → Option Wallet
own user none = none
own user (some w) = if w.user_id == user then some w else none

pub own-user_id :
    (user : ℕ) (o : Option Wallet) (w : Wallet) → own user o ≡ some w → (w.user_id == user) ≡ true
own-user_id user none w h = cc
own-user_id user (some v) w h = elim (Bool-cases (v.user_id == user)) [
  | inl e ↦
      let g = rw e at h in let same : v ≡ w = cc in subst (λ x. (x.user_id == user) ≡ true) same e
  | inr e ↦ let g = rw e at h in cc
]

abbrev pub put : Wallet → Table → Table
put w table user = if w.user_id == user then some w else table user

abbrev pub wallets : WalletRepository
wallets = record {
  Db = Table;
  get_default_wallet = λ user table. own user (table user);
  count_free_wallets = λ user table. 0;
  create = λ w table. (w, put w table);
  set_default_wallet = λ user key table. table;
  update = put;
  get_update = λ user w w' table h id same key default.
      let e = own-user_id user (table user) w h in
      let e' : (w'.user_id == user) ≡ true = rw same e in rw (e', e') refl;
}

given-some : (s t : String) → given (some s) ≡ some t → (str_eq t "" ≡ false) × (some t ≡ some s)
given-some s t h = elim (Bool-cases (str_eq s "")) [
  | inl e ↦ let g = rw e at h in cc
  | inr e ↦
      let g = rw e at h in
      let same : s ≡ t = cc in (subst (λ x. str_eq x "" ≡ false) same e, sym (ap some same))
]

abbrev cipher : EncryptionService
cipher = record {
  encrypt = λ seal text key. text;
  decrypt = λ text key. some text;
  encrypt_wallet_container = λ seal secret seed mode kind pin. given (some secret);
  decrypt_wallet_secret = λ container pin. some container;
  decrypt_wallet_seed = λ container pin. none;
  decrypt_encrypt = λ seal text key. refl;
  secret_user = λ seal secret seed kind pin container h. given-some secret container h;
  secret_free = λ seal secret seed kind pin container h. given-some secret container h;
}

abbrev pub wallet : Wallet
wallet = record {
  wallet_id = 3;
  user_id = 7;
  public_key = "GA";
  is_default = true;
  is_free = true;
  use_pin = 0;
  secret_key = some "SA";
  seed_key = none;
  wallet_crypto_v2 = none;
}

abbrev pub table : Table
table user = if 7 == user then some wallet else none

change_wallet_password-refused_example :
    change_wallet_password cipher wallets 1 8 "1111" "2222" 1 table ≡ done false table
unfolding get_wallet_secrets
change_wallet_password-refused_example =
    change_wallet_password-refused cipher wallets 1 8 "1111" "2222" 1 table refl

abbrev changed : Table
changed =
    put (record wallet { secret_key = some "SA"; wallet_crypto_v2 = some "SA"; use_pin = 1 }) table

change_wallet_password-secret_example :
    (s s' : WalletSecrets) × (get_wallet_secrets cipher wallets 7 "1111" table ≡ some s)
    × (get_wallet_secrets cipher wallets 7 "2222" changed ≡ some s')
    × (s'.secret_key ≡ s.secret_key)
unfolding change_wallet_password
change_wallet_password-secret_example =
    change_wallet_password-secret cipher wallets 1 7 "1111" "2222" 1 table changed refl
