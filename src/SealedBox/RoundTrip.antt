-- ===== src/SealedBox/RoundTrip.antt =====
-- What bot/infrastructure/services/stellar_sealedbox_service.py seals it opens again, raw and in
-- base64, up to the largest text that it takes.
use my_mtlwallet_bot.Prelude.{
  ℕ, ◌+◌, ◌*◌, ◌/◌, ◌≤◌, ◌≡◌, ◌⊎◌, refl, sym, ap, ◌∙◌, subst, String, true, false, none, some,
  arith, ltb, Bool-cases, inl, inr, List,
}
use my_mtlwallet_bot.Prelude.Dict.{Dict}
use my_mtlwallet_bot.SealedBox.{
  sealed_box_overhead, max_plaintext_bytes, max_ciphertext_bytes, max_base64_ciphertext_bytes,
  Result, ok, Limits, operation_slot, Boxes, encrypt_sync, decrypt_sync, or_else,
  decrypt_raw_or_base64_sync, encrypt, decrypt,
}

-- What libsodium and base64 promise of a key pair: a box is 48 bytes longer than its text and opens
-- with the secret key; base64 writes four characters for three bytes, and reads back.
pub record IsSound (boxes : Boxes) (recipient secret : String) : Type 0 where
  pub public_key : boxes.PublicKey
  pub secret_key : boxes.SecretKey
  pub b64_encode : boxes.Bytes → boxes.Bytes
  pub knows_recipient : boxes.from_public_key recipient ≡ some public_key
  pub knows_secret : boxes.from_secret secret ≡ some secret_key
  pub longer :
      (seal : ℕ) (plain : boxes.Bytes)
      → boxes.len (boxes.seal seal public_key plain) ≡ boxes.len plain + sealed_box_overhead
  pub opens :
      (seal : ℕ) (plain : boxes.Bytes)
      → boxes.open_box secret_key (boxes.seal seal public_key plain) ≡ some plain
  pub b64_len : (b : boxes.Bytes) → boxes.len (b64_encode b) ≡ ((boxes.len b + 2) / 3) * 4
  pub b64_back : (b : boxes.Bytes) → boxes.b64_decode_stripped (b64_encode b) ≡ some b

module _ (boxes : Boxes) (recipient secret : String) (sound : IsSound boxes recipient secret)
    (seal : ℕ) (plain : boxes.Bytes) where
  abbrev sealed : boxes.Bytes
  sealed = boxes.seal seal sound.public_key plain

  module _ (fits : boxes.len plain ≤ max_plaintext_bytes) where
    long_enough : ltb (boxes.len sealed) sealed_box_overhead ≡ false
    long_enough = ground (arith, sound.longer seal plain)

    short_enough : ltb max_ciphertext_bytes (boxes.len sealed) ≡ false
    short_enough = ground (arith, sound.longer seal plain)

    raw_taken : ltb max_base64_ciphertext_bytes (boxes.len sealed) ≡ false
    raw_taken = ground (arith, sound.longer seal plain)

    b64_taken : ltb max_base64_ciphertext_bytes (boxes.len (sound.b64_encode sealed)) ≡ false
    b64_taken = ground (arith, sound.b64_len sealed, sound.longer seal plain)

    decrypt_sync-sealed : decrypt_sync boxes secret sealed ≡ ok plain
    unfolding decrypt_sync
    decrypt_sync-sealed =
        rw (long_enough, short_enough, sound.knows_secret, decrypt_sync, sound.opens seal plain)
          refl

    -- A text in base64 that is no box itself is not opened as it stands, whatever its length.
    decrypt_sync-b64 :
        (next : Result boxes.Bytes)
        → boxes.open_box sound.secret_key (sound.b64_encode sealed) ≡ none
        → or_else boxes (decrypt_sync boxes secret (sound.b64_encode sealed)) next ≡ next
    unfolding decrypt_sync
    decrypt_sync-b64 next no_box =
        elim (Bool-cases (ltb (boxes.len (sound.b64_encode sealed)) sealed_box_overhead)) [
          | inl short ↦ rw (short, decrypt_sync) refl
          | inr enough ↦
              elim (Bool-cases (ltb max_ciphertext_bytes (boxes.len (sound.b64_encode sealed)))) [
                | inl large ↦ rw (enough, large, decrypt_sync) refl
                | inr small ↦ rw (enough, small, sound.knows_secret, decrypt_sync, no_box) refl
              ]
        ]

    raw_opens : decrypt_raw_or_base64_sync boxes secret sealed ≡ ok plain
    unfolding decrypt_raw_or_base64_sync
    raw_opens = rw decrypt_sync-sealed refl

    b64_opens :
        boxes.open_box sound.secret_key (sound.b64_encode sealed) ≡ none
        → decrypt_raw_or_base64_sync boxes secret (sound.b64_encode sealed) ≡ ok plain
    unfolding decrypt_raw_or_base64_sync
    b64_opens no_box =
        rw (sound.b64_back sealed, long_enough, short_enough, decrypt_sync-sealed)
          (decrypt_sync-b64 (ok plain) no_box)

  module _ (limits : Limits) (user now : ℕ) (s s' : Dict (List ℕ)) (box : boxes.Bytes)
      (encrypted : encrypt boxes limits seal user now recipient plain s ≡ (ok box, s')) where
    -- A box that came out is the sealed text, and the text was not too large.
    box_of : (boxes.len plain ≤ max_plaintext_bytes) × (sealed ≡ box)
    unfolding encrypt encrypt_sync
    box_of = elim (Bool-cases (ltb max_plaintext_bytes (boxes.len plain))) [
      | inl large ↦ let g = rw (large, encrypt) at encrypted in absurd (cc)
      | inr fits ↦ elim (Bool-cases (operation_slot limits user now s).0) [
        | inl granted ↦
            let g = rw (fits, granted, encrypt, sound.knows_recipient, encrypt_sync) at encrypted in
            (ground arith, cc)
        | inr refused ↦ let g = rw (fits, refused, encrypt) at encrypted in absurd (cc)
      ]
    ]

    -- What a client may hand back: the box, or its base64 text, where that is no box itself.
    abbrev pub IsForm : boxes.Bytes → boxes.Bytes → Type 0
    IsForm b text =
        (text ≡ b)
        ⊎ ((text ≡ sound.b64_encode b)
            × (boxes.open_box sound.secret_key (sound.b64_encode b) ≡ none))

    form_opens :
        (b text : boxes.Bytes)
        → sealed ≡ b
        → boxes.len plain ≤ max_plaintext_bytes
        → IsForm b text
        → (ltb max_base64_ciphertext_bytes (boxes.len text) ≡ false)
          × (decrypt_raw_or_base64_sync boxes secret text ≡ ok plain)
    form_opens b text same fits (inl e) =
        subst
          (λ x.
            (ltb max_base64_ciphertext_bytes (boxes.len x) ≡ false)
            × (decrypt_raw_or_base64_sync boxes secret x ≡ ok plain))
          (same ∙ sym e) (raw_taken fits, raw_opens fits)
    form_opens b text same fits (inr (e, no_box)) =
        subst
          (λ x.
            (ltb max_base64_ciphertext_bytes (boxes.len x) ≡ false)
            × (decrypt_raw_or_base64_sync boxes secret x ≡ ok plain))
          (ap sound.b64_encode same ∙ sym e)
          (
            b64_taken fits,
            b64_opens fits (
                subst (λ x. boxes.open_box sound.secret_key (sound.b64_encode x) ≡ none) (sym same)
                  no_box),
          )

    -- A box that encrypt gives one user for a recipient is opened by decrypt with the recipient's
    -- secret key to the text that was sealed, for any user, at any time and in any state where
    -- that user's limit leaves a slot, as it is, and in base64 where the base64 text is not
    -- itself a box for that key: no box of an accepted text is too large to be accepted again.
    pub decrypt-encrypt :
        (limits' : Limits) (reader later : ℕ) (t : Dict (List ℕ)) (text : boxes.Bytes)
        → IsForm box text
        → (operation_slot limits' reader later t).0 ≡ true
        → (decrypt boxes limits' reader later secret text t).0 ≡ ok plain
    unfolding decrypt
    decrypt-encrypt limits' reader later t text form free =
        let (fits, same) = box_of in
        let (taken, opened) = form_opens box text same fits form in rw (taken, free, opened) refl
