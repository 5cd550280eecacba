-- ===== src/Encryption/Rotation.antt =====
-- A container opens with its PIN as long as its key is the service's current key or the one before,
-- and with no PIN that derives other keys.
use text.Mathlib.Text.{◌==◌ as str_eq}
use my_mtlwallet_bot.Prelude.{
  String, ◌≡◌, ◌≢◌, ◌⊎◌, refl, sym, ap, ◌∙◌, subst, true, false, Option, none, some, List, [], ◌∷◌,
  Bool-cases, Option-cases, inl, inr,
}
use my_mtlwallet_bot.Wallets.{given}
use my_mtlwallet_bot.Encryption.{
  Payload, Crypto, IsSound, Config, get_optional_old_kek, get_kek, candidate_keks, value, nothing,
  container, is_mode, Random, derive_key, encrypt_block, payload_of, encrypt_wallet_container,
  parse_wallet_container, decrypt_bytes, decrypt_block, try_keks, read_block, decrypt_named_block,
  decrypt_wallet_secret, decrypt_wallet_seed,
}

abbrev pub IsAmong : String → List String → Type 0
IsAmong s [] = ⊥
IsAmong s (t ∷ ts) = (t ≡ s) ⊎ IsAmong s ts

get_kek-current : (config : Config) → get_kek config "current" ≡ config.wallet_kek
unfolding get_kek
get_kek-current config = elim (Option-cases (get_optional_old_kek config)) [
  | inl e ↦ rw (e, get_kek) refl
  | inr (old, e) ↦ rw (e, get_kek) refl
]

current-candidate : (config : Config) → IsAmong config.wallet_kek (candidate_keks config "current")
unfolding candidate_keks get_kek
current-candidate config = elim (Option-cases (get_optional_old_kek config)) [
  | inl e ↦ rw (e, candidate_keks) (inl (get_kek-current config))
  | inr (old, e) ↦ rw (e, candidate_keks) (inl (get_kek-current config))
]

old-candidate :
    (config : Config) (old : String)
    → get_optional_old_kek config ≡ some old
    → IsAmong old (candidate_keks config "current")
unfolding candidate_keks get_kek
old-candidate config old e = rw (e, candidate_keks, get_kek) (inr (inl refl))

module _ (crypto : Crypto) (sound : IsSound crypto) where
  open crypto use {Bytes}

  opens-own :
      (text : String) (key nonce : Bytes)
      → decrypt_block crypto (encrypt_block crypto text key nonce) key ≡ value text
  unfolding decrypt_block decrypt_bytes
  opens-own text key nonce =
      rw
        (
          sound.b64 nonce,
          sound.b64 (crypto.aes_encrypt key nonce (crypto.utf8_encode text)),
          decrypt_bytes,
          sound.aes_opens key nonce (crypto.utf8_encode text),
          sound.utf8 text,
        )
        refl

  opens-other :
      (text : String) (key nonce key' : Bytes)
      → (key' ≡ key) ⊎ (decrypt_block crypto (encrypt_block crypto text key nonce) key' ≡ nothing)
  unfolding decrypt_block decrypt_bytes
  opens-other text key nonce key' =
      let plain = crypto.utf8_encode text in
      let ct = crypto.aes_encrypt key nonce plain in
      elim (Option-cases (crypto.aes_decrypt key' nonce ct)) [
        | inl e ↦ inr (rw (sound.b64 nonce, sound.b64 ct, decrypt_bytes, e) refl)
        | inr (found, e) ↦ inl (sound.aes_authentic key key' nonce plain found e)
      ]

  -- Whether a key can be derived does not hang on the service's key.
  derive_key-some :
      (mode : String) (salt : Bytes) (pin : Option String) (kek kek' : String) (key : Bytes)
      → derive_key crypto mode salt pin kek ≡ some key
      → (key' : Bytes) × (derive_key crypto mode salt pin kek' ≡ some key')
  unfolding derive_key
  derive_key-some mode salt pin kek kek' key h = elim (Bool-cases (str_eq mode "free")) [
    | inl e ↦ rw (e, derive_key) (_, refl)
    | inr e ↦ elim (Option-cases (given pin)) [
      | inl n ↦ let g = rw (e, n, derive_key) at h in cc
      | inr (p, s) ↦ rw (e, s, derive_key) (_, refl)
    ]
  ]

  try_keks-opens :
      (mode : String) (salt : Bytes) (pin : Option String) (text : String) (nonce key : Bytes)
      (kek : String) (keks : List String)
      → derive_key crypto mode salt pin kek ≡ some key
      → IsAmong kek keks
      → try_keks crypto mode salt pin (encrypt_block crypto text key nonce) keks ≡ value text
  unfolding try_keks
  try_keks-opens mode salt pin text nonce key kek [] h i = elim i [ ]
  try_keks-opens mode salt pin text nonce key kek (k ∷ ks) h (inl e) =
      let g : derive_key crypto mode salt pin k ≡ some key =
        subst (λ x. derive_key crypto mode salt pin x ≡ some key) (sym e) h in
      rw (g, try_keks, opens-own text key nonce) refl
  try_keks-opens mode salt pin text nonce key kek (k ∷ ks) h (inr i) =
      let (key', g) = derive_key-some mode salt pin kek k key h in
      elim (opens-other text key nonce key') [
        | inl same ↦ rw (g, try_keks, same, opens-own text key nonce) refl
        | inr n ↦ rw (g, try_keks, n) (try_keks-opens mode salt pin text nonce key kek ks h i)
      ]

  try_keks-refuses :
      (mode : String) (salt : Bytes) (pin : Option String) (text : String) (nonce key : Bytes)
      (keks : List String)
      → ((kek : String) → derive_key crypto mode salt pin kek ≢ some key)
      → try_keks crypto mode salt pin (encrypt_block crypto text key nonce) keks ≡ nothing
  unfolding try_keks
  try_keks-refuses mode salt pin text nonce key [] h = refl
  try_keks-refuses mode salt pin text nonce key (k ∷ ks) h =
      elim (Option-cases (derive_key crypto mode salt pin k)) [
        | inl n ↦ rw (n, try_keks) refl
        | inr (key', d) ↦ elim (opens-other text key nonce key') [
          | inl same ↦ absurd (h k (d ∙ ap some same))
          | inr n ↦ rw (d, try_keks, n) (try_keks-refuses mode salt pin text nonce key ks h)
        ]
      ]

  -- What a container holds, once it was sealed.
  module _ (config : Config) (random : Random crypto) (secret : String) (seed : Option String)
      (mode kind : String) (pin : Option String) (text : String)
      (sealed : encrypt_wallet_container crypto config random secret seed mode kind pin
        ≡ container text) where
    abbrev held : Bytes → Payload
    held key = payload_of crypto random secret seed mode kind key

    sealed-parts :
        (key : Bytes) × (derive_key crypto mode random.salt pin config.wallet_kek ≡ some key)
        × (is_mode mode ≡ true)
        × (crypto.dumps (held key) ≡ text)
    unfolding encrypt_wallet_container
    sealed-parts = elim (Bool-cases (is_mode mode)) [
      | inr e ↦ let g = rw (e, encrypt_wallet_container) at sealed in cc
      | inl e ↦
          elim (Option-cases (derive_key crypto mode random.salt pin (get_kek config "current"))) [
            | inl n ↦ let g = rw (e, n, encrypt_wallet_container) at sealed in cc
            | inr (key, d) ↦
                let g = rw (e, d, encrypt_wallet_container) at sealed in
                (key, rw (get_kek-current config) at d, e, cc)
          ]
    ]

    pub sealed_text : str_eq text "" ≡ false
    sealed_text =
        let (key, d, e, t) = sealed-parts in
        subst (λ s. str_eq s "" ≡ false) t (sound.json_full (held key))

    parsed :
        (key : Bytes)
        → crypto.dumps (held key) ≡ text
        → parse_wallet_container crypto text ≡ some (held key)
    unfolding parse_wallet_container
    parsed key e =
        subst (λ t. parse_wallet_container crypto t ≡ some (held key)) e
          (rw (sound.json_full (held key), sound.json (held key), parse_wallet_container) refl)

    module _ (config' : Config)
        (kept : (config'.wallet_kek ≡ config.wallet_kek)
          ⊎ (get_optional_old_kek config' ≡ some config.wallet_kek)) where
      still-candidate : IsAmong config.wallet_kek (candidate_keks config' "current")
      still-candidate = elim kept [
        | inl e ↦
            subst (λ k. IsAmong k (candidate_keks config' "current")) e (current-candidate config')
        | inr e ↦ old-candidate config' config.wallet_kek e
      ]

      block-opens :
          (key : Bytes) (block : String) (nonce : Bytes)
          → derive_key crypto mode random.salt pin config.wallet_kek ≡ some key
          → is_mode mode ≡ true
          → read_block crypto config' pin (held key) (some (encrypt_block crypto block key nonce))
            ≡ value block
      block-opens key block nonce d e =
          rw (e, sound.b64 random.salt)
            (try_keks-opens mode random.salt pin block nonce key config.wallet_kek
              (candidate_keks config' "current") d still-candidate)

      pub decrypt_wallet_secret-sealed :
          decrypt_wallet_secret crypto config' text pin ≡ value secret
      unfolding decrypt_wallet_secret decrypt_named_block
      decrypt_wallet_secret-sealed =
          let (key, d, e, t) = sealed-parts in
          rw (parsed key t, decrypt_named_block) (block-opens key secret random.secret_nonce d e)

      -- A wallet container that was sealed opens with its PIN under every configuration whose
      -- current key, or whose old key, is the one it was sealed with: the secret comes back, and
      -- so does the seed phrase where one was given; where none was, the seed reads as None.
      pub decrypt_wallet_seed-sealed :
          (decrypt_wallet_secret crypto config' text pin ≡ value secret)
          × ((words : String)
              → given seed ≡ some words
              → decrypt_wallet_seed crypto config' text pin ≡ value words)
          × (given seed ≡ none → decrypt_wallet_seed crypto config' text pin ≡ nothing)
      unfolding decrypt_wallet_seed decrypt_named_block
      decrypt_wallet_seed-sealed =
          let (key, d, e, t) = sealed-parts in
          (
            decrypt_wallet_secret-sealed,
            λ words g.
                rw (parsed key t, decrypt_named_block, g)
                  (block-opens key words random.seed_nonce d e),
            λ g. rw (parsed key t, decrypt_named_block, g) refl,
          )
