-- ===== src/Encryption.antt =====
-- bot/infrastructure/services/encryption_service.py: wallet containers. A container is sealed with a
-- key that is derived from the service's key (KEK) and, in user mode, from the user's PIN; it opens
-- under the service's current key or the one before.
pub mod Rotation
pub mod Service
use Prim.Native.String.{◌++◌}
use text.Mathlib.Text.{◌==◌ as str_eq}
use my_mtlwallet_bot.Prelude.{
  ℕ, String, ◌≡◌, Bool, true, false, ◌||◌, ◌&&◌, not, Option, none, some, List, [], ◌∷◌, ◌==◌,
  if◌then◌else◌,
}
use my_mtlwallet_bot.Prelude.Strip.{strip}
use my_mtlwallet_bot.Wallets.{given}

-- A block of a decoded container; none is a field that is missing or not a text.
pub record Block : Type 0 where
  pub nonce : Option String
  pub ct : Option String

-- A decoded container, as far as it is read; none is a field that is missing or of another type.
pub record Payload : Type 0 where
  pub v : Option ℕ
  pub mode : Option String
  pub wallet_kind : Option String
  pub kid : Option String
  pub salt : Option String
  pub secret : Option Block
  pub seed : Option Block
  pub kdf : Bool

-- The libraries: base64, json, hmac, argon2, AES-GCM and cryptocode.
pub record Crypto : Type 1 where
  pub Bytes : Type 0
  pub b64_encode : Bytes → String
  pub b64_decode : String → Option Bytes
  pub dumps : Payload → String
  -- none: not JSON, or not an object
  pub loads : String → Option Payload
  pub utf8_encode : String → Bytes
  pub utf8_decode : Bytes → Option String
  -- HMAC of "wallet-free-v2:" and the salt under a key
  pub free_digest : String → Bytes → Bytes
  pub hash_secret_raw : String → Bytes → Bytes
  pub aes_encrypt : Bytes → Bytes → Bytes → Bytes
  pub aes_decrypt : Bytes → Bytes → Bytes → Option Bytes
  pub cryptocode_encrypt : ℕ → String → String → String
  pub cryptocode_decrypt : String → String → Option String

-- What they promise: what was encoded decodes, and AES-GCM opens what was sealed under its key, and
-- under no other.
pub record IsSound (crypto : Crypto) : Type 0 where
  pub b64 : (b : crypto.Bytes) → crypto.b64_decode (crypto.b64_encode b) ≡ some b
  pub json : (p : Payload) → crypto.loads (crypto.dumps p) ≡ some p
  pub json_full : (p : Payload) → str_eq (crypto.dumps p) "" ≡ false
  pub utf8 : (s : String) → crypto.utf8_decode (crypto.utf8_encode s) ≡ some s
  pub aes_opens :
      (key nonce plain : crypto.Bytes)
      → crypto.aes_decrypt key nonce (crypto.aes_encrypt key nonce plain) ≡ some plain
  pub aes_authentic :
      (key key' nonce plain found : crypto.Bytes)
      → crypto.aes_decrypt key' nonce (crypto.aes_encrypt key nonce plain) ≡ some found
      → key' ≡ key
  pub cryptocode_opens :
      (seal : ℕ) (text key : String)
      → crypto.cryptocode_decrypt (crypto.cryptocode_encrypt seal text key) key ≡ some text

-- The settings that are read.
pub record Config : Type 0 where
  pub wallet_kek : String
  pub wallet_kek_old : Option String

-- _get_optional_old_kek
unfoldable pub get_optional_old_kek : Config → Option String
get_optional_old_kek config = elim (given config.wallet_kek_old) [
  | none ↦ none
  | some old ↦ given (some (strip old))
]

-- _get_kek
unfoldable pub get_kek : Config → String → String
get_kek config kid = elim (get_optional_old_kek config) [
  | none ↦ config.wallet_kek
  | some old ↦ if str_eq kid "old" then old else config.wallet_kek
]

-- _candidate_keks
unfoldable pub candidate_keks : Config → String → List String
candidate_keks config kid =
    let current = get_kek config "current" in
    elim (get_optional_old_kek config) [
      | none ↦ current ∷ []
      | some old ↦ if str_eq kid "old" then old ∷ current ∷ [] else current ∷ old ∷ []
    ]

-- How a read of a container ends; `raised` is an error of a library.
pub data Reading : Type 0 where
  value : String → Reading
  nothing : Reading
  raised : Reading

-- A container, or the ValueError of encrypt_wallet_container.
pub data Sealed : Type 0 where
  container : String → Sealed
  value_error : Sealed

abbrev pub is_mode : String → Bool
is_mode mode = str_eq mode "free" || str_eq mode "user"

abbrev pub or_current : Option String → String
or_current none = "current"
or_current (some kid) = kid

module _ (crypto : Crypto) where
  open crypto use {Bytes}

  -- What `os.urandom` gives during one call.
  pub record Random : Type 0 where
    pub salt : Bytes
    pub secret_nonce : Bytes
    pub seed_nonce : Bytes

  -- _derive_key
  unfoldable pub derive_key : String → Bytes → Option String → String → Option Bytes
  derive_key mode salt pin kek =
      if str_eq mode "free" then some (crypto.free_digest kek salt) else (elim (given pin) [
        | none ↦ none
        | some p ↦ some (crypto.hash_secret_raw (p ++ "|" ++ kek) salt)
      ])

  -- _encrypt_block
  abbrev pub encrypt_block : String → Bytes → Bytes → Block
  encrypt_block text key nonce = record {
    nonce = some (crypto.b64_encode nonce);
    ct = some (crypto.b64_encode (crypto.aes_encrypt key nonce (crypto.utf8_encode text)));
  }

  abbrev pub seed_block : Option String → Bytes → Bytes → Option Block
  seed_block none key nonce = none
  seed_block (some seed) key nonce = some (encrypt_block seed key nonce)

  abbrev pub payload_of : Random → String → Option String → String → String → Bytes → Payload
  payload_of random secret_key seed_key mode wallet_kind key = record {
    v = some 2;
    mode = some mode;
    wallet_kind = some wallet_kind;
    kid = some "current";
    salt = some (crypto.b64_encode random.salt);
    secret = some (encrypt_block secret_key key random.secret_nonce);
    seed = seed_block (given seed_key) key random.seed_nonce;
    kdf = str_eq mode "user";
  }

  -- encrypt_wallet_container; the checks leave no way for the key to be missing
  unfoldable pub encrypt_wallet_container :
      Config → Random → String → Option String → String → String → Option String → Sealed
  encrypt_wallet_container config random secret_key seed_key mode wallet_kind pin =
      if not (is_mode mode)
      then value_error
      else (elim (derive_key mode random.salt pin (get_kek config "current")) [
        | none ↦ value_error
        | some key ↦
            container (crypto.dumps (payload_of random secret_key seed_key mode wallet_kind key))
      ])

  -- parse_wallet_container
  unfoldable pub parse_wallet_container : String → Option Payload
  parse_wallet_container text = if str_eq text "" then none else (elim (crypto.loads text) [
    | none ↦ none
    | some p ↦ elim p.v [ none ↦ none | some v ↦ if v == 2 then some p else none ]
  ])

  -- _decrypt_block
  unfoldable pub decrypt_bytes : Bytes → Option Bytes → Option Bytes → Reading
  decrypt_bytes key none ct = nothing
  decrypt_bytes key (some nonce) none = nothing
  decrypt_bytes key (some nonce) (some ct) = elim (crypto.aes_decrypt key nonce ct) [
    | none ↦ nothing
    | some plain ↦ elim (crypto.utf8_decode plain) [ none ↦ raised | some text ↦ value text ]
  ]

  abbrev pub decoded : Option String → Option Bytes
  decoded none = none
  decoded (some text) = crypto.b64_decode text

  unfoldable pub decrypt_block : Block → Bytes → Reading
  decrypt_block block key = decrypt_bytes key (decoded block.nonce) (decoded block.ct)

  abbrev pub or_next : Reading → Reading → Reading
  or_next (value text) next = value text
  or_next nothing next = next
  or_next raised next = raised

  -- The loop over the candidate keys.
  unfoldable pub try_keks : String → Bytes → Option String → Block → List String → Reading
  try_keks mode salt pin block [] = nothing
  try_keks mode salt pin block (kek ∷ keks) =
      let next = try_keks mode salt pin block keks in
      elim (derive_key mode salt pin kek) [
        | none ↦ nothing
        | some key ↦ or_next (decrypt_block block key) next
      ]

  abbrev pub read_block : Config → Option String → Payload → Option Block → Reading
  read_block config pin p none = nothing
  read_block config pin p (some block) = elim p.mode [
    | none ↦ nothing
    | some mode ↦ elim p.salt [
      | none ↦ nothing
      | some salt_raw ↦ if not (is_mode mode) then nothing else (elim (crypto.b64_decode salt_raw) [
        | none ↦ raised
        | some salt ↦ try_keks mode salt pin block (candidate_keks config (or_current p.kid))
      ])
    ]
  ]

  -- _decrypt_named_block
  unfoldable pub decrypt_named_block :
      Config → String → (Payload → Option Block) → Option String → Reading
  decrypt_named_block config text block_of pin = elim (parse_wallet_container text) [
    | none ↦ nothing
    | some p ↦ read_block config pin p (block_of p)
  ]

  -- decrypt_wallet_secret
  unfoldable pub decrypt_wallet_secret : Config → String → Option String → Reading
  decrypt_wallet_secret config text pin = decrypt_named_block config text (λ p. p.secret) pin

  -- decrypt_wallet_seed
  unfoldable pub decrypt_wallet_seed : Config → String → Option String → Reading
  decrypt_wallet_seed config text pin = decrypt_named_block config text (λ p. p.seed) pin
