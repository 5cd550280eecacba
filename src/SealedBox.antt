-- ===== src/SealedBox.antt =====
-- bot/infrastructure/services/stellar_sealedbox_service.py: sealed boxes for Stellar keys, behind a
-- limit of operations in a rolling window. The clock counts in whole ticks; libsodium, the Stellar
-- keys and base64 are arguments.
pub mod Window
pub mod RoundTrip
use my_mtlwallet_bot.Prelude.{
  ℕ, ◌+◌, ◌*◌, ◌/◌, ◌≡◌, String, Bool, true, false, Option, none, some, List, [], ◌∷◌, ◌++◌, ltb,
  leb, if◌then◌else◌, length, ◌||◌,
}
use my_mtlwallet_bot.Prelude.Dict.{Dict, get, put}

abbrev pub sealed_box_overhead : ℕ
sealed_box_overhead = 48

abbrev pub max_plaintext_bytes : ℕ
max_plaintext_bytes = 10485760

abbrev pub max_ciphertext_bytes : ℕ
max_ciphertext_bytes = max_plaintext_bytes + sealed_box_overhead

abbrev pub max_base64_ciphertext_bytes : ℕ
max_base64_ciphertext_bytes = ((max_ciphertext_bytes + 2) / 3) * 4

-- How an operation ends; `invalid_key` is the ValueError of a key that the library refuses.
pub data Result (A : Type 0) : Type 0 where
  ok : A → Result A
  rate_limit_error : Result A
  size_error : Result A
  decryption_error : Result A
  invalid_key : Result A

pub record Limits : Type 0 where
  pub max_operations : ℕ
  pub window_seconds : ℕ

-- `while attempts and attempts[0] <= cutoff: attempts.popleft()`
unfoldable pub recent : ℕ → ℕ → List ℕ → List ℕ
recent window now [] = []
recent window now (at ∷ attempts) =
    let rest = recent window now attempts in if leb (at + window) now then rest else at ∷ attempts

-- One user's part of operation_slot: whether the operation may go on, and the attempts kept.
unfoldable pub take_slot : Limits → ℕ → List ℕ → Bool × List ℕ
take_slot limits now attempts =
    let kept = recent limits.window_seconds now attempts in
    if leb limits.max_operations (length kept) then (false, kept) else (true, kept ++ now ∷ [])

abbrev pub or_nil : Option (List ℕ) → List ℕ
or_nil none = []
or_nil (some attempts) = attempts

-- operation_slot, up to the semaphore
unfoldable pub operation_slot : Limits → ℕ → ℕ → Dict (List ℕ) → Bool × Dict (List ℕ)
operation_slot limits user_id now s =
    let (granted, attempts) = take_slot limits now (or_nil (get user_id s)) in
    (granted, put user_id attempts s)

-- libsodium's sealed boxes, the keys of the Stellar SDK, and base64.
pub record Boxes : Type 1 where
  pub Bytes : Type 0
  pub PublicKey : Type 0
  pub SecretKey : Type 0
  pub len : Bytes → ℕ
  pub from_public_key : String → Option PublicKey
  pub from_secret : String → Option SecretKey
  -- the first argument numbers the call, whose result is random
  pub seal : ℕ → PublicKey → Bytes → Bytes
  -- none: a CryptoError
  pub open_box : SecretKey → Bytes → Option Bytes
  -- `base64.b64decode(payload.strip(), validate=True)`
  pub b64_decode_stripped : Bytes → Option Bytes
  pub no_bytes : Bytes

module _ (boxes : Boxes) where
  open boxes use {Bytes, SecretKey}

  -- _encrypt_sync
  unfoldable pub encrypt_sync : ℕ → String → Bytes → Result Bytes
  encrypt_sync seal recipient plaintext = elim (boxes.from_public_key recipient) [
    | none ↦ invalid_key
    | some key ↦ ok (boxes.seal seal key plaintext)
  ]

  -- A box that was opened, or the CryptoError of one that was not.
  abbrev pub of_box : Option Bytes → Result Bytes
  of_box none = decryption_error
  of_box (some plaintext) = ok plaintext

  -- _decrypt_sync; its errors are CryptoError and ValueError, all but the size told apart below
  unfoldable pub decrypt_sync : String → Bytes → Result Bytes
  decrypt_sync secret ciphertext =
      if ltb (boxes.len ciphertext) sealed_box_overhead
      then decryption_error
      else if ltb max_ciphertext_bytes (boxes.len ciphertext)
      then size_error
      else (elim (boxes.from_secret secret) [
        | none ↦ invalid_key
        | some key ↦ of_box (boxes.open_box key ciphertext)
      ])

  abbrev pub or_no_bytes : Option Bytes → Bytes
  or_no_bytes none = boxes.no_bytes
  or_no_bytes (some b) = b

  -- `except (CryptoError, ValueError)` about a decryption.
  abbrev pub or_else : Result Bytes → Result Bytes → Result Bytes
  or_else (ok plaintext) next = ok plaintext
  or_else other next = next

  -- _decrypt_raw_or_base64_sync
  unfoldable pub decrypt_raw_or_base64_sync : String → Bytes → Result Bytes
  decrypt_raw_or_base64_sync secret payload =
      let decoded = or_no_bytes (boxes.b64_decode_stripped payload) in
      let second =
        if ltb (boxes.len decoded) sealed_box_overhead
          || ltb max_ciphertext_bytes (boxes.len decoded)
        then decryption_error
        else or_else (decrypt_sync secret decoded) decryption_error in
      or_else (decrypt_sync secret payload) second

  -- encrypt
  unfoldable pub encrypt :
      Limits → ℕ → ℕ → ℕ → String → Bytes → Dict (List ℕ) → Result Bytes × Dict (List ℕ)
  encrypt limits seal user_id now recipient plaintext s =
      let (granted, s') = operation_slot limits user_id now s in
      if ltb max_plaintext_bytes (boxes.len plaintext)
      then (size_error, s)
      else if granted
      then (encrypt_sync seal recipient plaintext, s')
      else (rate_limit_error, s')

  -- decrypt
  unfoldable pub decrypt :
      Limits → ℕ → ℕ → String → Bytes → Dict (List ℕ) → Result Bytes × Dict (List ℕ)
  decrypt limits user_id now secret payload s =
      let (granted, s') = operation_slot limits user_id now s in
      if ltb max_base64_ciphertext_bytes (boxes.len payload)
      then (size_error, s)
      else if granted
      then (decrypt_raw_or_base64_sync secret payload, s')
      else (rate_limit_error, s')
