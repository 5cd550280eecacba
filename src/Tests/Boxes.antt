-- ===== src/Tests/Boxes.antt =====
-- Sealed boxes on concrete inputs: bytes that remember how they were made.
use my_mtlwallet_bot.Prelude.{
  ℕ, ◌+◌, ◌*◌, ◌/◌, ◌≡◌, refl, inr, true, false, Option, none, some, [], ◌∷◌, arith,
}
use my_mtlwallet_bot.Prelude.Dict.{put}
use my_mtlwallet_bot.SealedBox.{
  ok, Limits, recent, take_slot, operation_slot, Boxes, encrypt_sync, encrypt, decrypt,
}
use my_mtlwallet_bot.SealedBox.Window.{grants, reference, grants-reference}
use my_mtlwallet_bot.SealedBox.RoundTrip.{IsSound, decrypt-encrypt}

data Made : Type 0 where
  raw : ℕ → Made
  boxed : Made → Made
  base64 : Made → Made

abbrev size : Made → ℕ
size (raw n) = n
size (boxed b) = size b + 48
size (base64 b) = ((size b + 2) / 3) * 4

abbrev unboxed : Made → Option Made
unboxed (boxed b) = some b
unboxed other = none

abbrev decoded : Made → Option Made
decoded (base64 b) = some b
decoded other = none

abbrev boxes : Boxes
boxes = record {
  Bytes = Made;
  PublicKey = ℕ;
  SecretKey = ℕ;
  len = size;
  from_public_key = λ text. some 1;
  from_secret = λ text. some 1;
  seal = λ seal key plain. boxed plain;
  open_box = λ key box. unboxed box;
  b64_decode_stripped = decoded;
  no_bytes = raw 0;
}

boxes-IsSound : IsSound boxes "G" "S"
boxes-IsSound = record {
  public_key = 1;
  secret_key = 1;
  b64_encode = base64;
  knows_recipient = refl;
  knows_secret = refl;
  longer = λ seal plain. refl;
  opens = λ seal plain. refl;
  b64_len = λ b. refl;
  b64_back = λ b. refl;
}

abbrev limits : Limits
limits = record { max_operations = 2; window_seconds = 3600 }

grants-reference_example :
    grants limits [] (10 ∷ (20 ∷ (30 ∷ (3610 ∷ []))))
    ≡ reference limits [] (10 ∷ (20 ∷ (30 ∷ (3610 ∷ []))))
grants-reference_example = grants-reference limits (10 ∷ (20 ∷ (30 ∷ (3610 ∷ [])))) (omega arith)

grants_run :
    grants limits [] (10 ∷ (20 ∷ (30 ∷ (3610 ∷ [])))) ≡ true ∷ (true ∷ (false ∷ (true ∷ [])))
unfolding grants take_slot recent
grants_run = refl

sealed_once : encrypt boxes limits 0 7 100 "G" (raw 5) [] ≡ (ok (boxed (raw 5)), (7, 100 ∷ []) ∷ [])
unfolding encrypt operation_slot take_slot recent encrypt_sync put
sealed_once = refl

-- User 7 seals, and user 8 opens in another state.
decrypt-encrypt_example :
    (decrypt boxes limits 8 200 "S" (base64 (boxed (raw 5))) []).0 ≡ ok (raw 5)
unfolding operation_slot take_slot recent boxes-IsSound
decrypt-encrypt_example =
    decrypt-encrypt boxes "G" "S" boxes-IsSound 0 (raw 5) limits 7 100 [] ((7, 100 ∷ []) ∷ [])
      (boxed (raw 5)) sealed_once limits 8 200 [] (base64 (boxed (raw 5))) (inr (refl, refl)) refl
