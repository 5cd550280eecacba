-- ===== src/Tests/Ciphers.antt =====
-- Libraries that hide nothing, on which the containers run: a text for every payload that reads back,
-- and a cipher that writes its key in front.
use Prim.Native.Char.{Char, code}
use Prim.Native.String.{◌∷◌ as ◌before◌}
use text.Mathlib.Text.{◌==◌ as str_eq}
use my_mtlwallet_bot.Prelude.{
  ℕ, zero, suc, String, ◌≡◌, refl, sym, length, ap, Bool, true, false, Option, none, some, List, [],
  ◌∷◌, ◌==◌, if◌then◌else◌, eq_iff, eq_refl, arith, Bool-cases, inl, inr,
}
use my_mtlwallet_bot.Encryption.{Block, Payload, Crypto, IsSound}

abbrev mark : Char
mark = "x"

abbrev stop : Char
stop = "z"

-- A text marked letter by letter, and its end.
abbrev put_text : String → String → String
put_text String.[] rest = stop before rest
put_text (String.◌∷◌ c s) rest = mark before (c before put_text s rest)

abbrev grown : Char → Option (String × String) → Option (String × String)
grown c none = none
grown c (some (s, rest)) = some (c before s, rest)

abbrev get_text : String → Option (String × String)
get_text String.[] = none
get_text (String.◌∷◌ t String.[]) = if code t == 122 then some ("", "") else none
get_text (String.◌∷◌ t (String.◌∷◌ c s)) =
    let more = get_text s in if code t == 122 then some ("", c before s) else grown c more

get-put : (s rest : String) → get_text (put_text s rest) ≡ some (s, rest)
get-put String.[] String.[] = refl
get-put String.[] (String.◌∷◌ c rest) = refl
get-put (String.◌∷◌ c s) rest = ap (grown c) (get-put s rest)

-- The pieces of a payload, each as a text.
abbrev of_option : Option String → String
of_option none = ""
of_option (some s) = mark before s

abbrev to_option : String → Option String
to_option String.[] = none
to_option (String.◌∷◌ c s) = some s

option_back : (o : Option String) → to_option (of_option o) ≡ o
option_back none = refl
option_back (some s) = refl

abbrev ones : ℕ → String
ones zero = ""
ones (suc n) = mark before ones n

abbrev count : String → ℕ
count String.[] = zero
count (String.◌∷◌ c s) = suc (count s)

count-ones : (n : ℕ) → count (ones n) ≡ n
count-ones zero = refl
count-ones (suc n) = ap suc (count-ones n)

abbrev of_number : Option ℕ → String
of_number none = ""
of_number (some n) = mark before ones n

abbrev to_number : String → Option ℕ
to_number String.[] = none
to_number (String.◌∷◌ c s) = some (count s)

number_back : (o : Option ℕ) → to_number (of_number o) ≡ o
number_back none = refl
number_back (some n) = ap some (count-ones n)

abbrev of_flag : Bool → String
of_flag true = "x"
of_flag false = ""

abbrev to_flag : String → Bool
to_flag String.[] = false
to_flag (String.◌∷◌ c s) = true

flag_back : (b : Bool) → to_flag (of_flag b) ≡ b
flag_back true = refl
flag_back false = refl

abbrev block : Option (String × String) → Option (String × String) → Option Block
block (some (nonce, rest)) (some (ct, end)) =
    some (record { nonce = to_option nonce; ct = to_option ct })
block (some (nonce, rest)) none = none
block none other = none

abbrev after : Option (String × String) → Option (String × String)
after none = none
after (some (s, rest)) = get_text rest

abbrev of_block : Option Block → String
of_block none = ""
of_block (some b) = put_text (of_option b.nonce) (put_text (of_option b.ct) "")

abbrev to_block : String → Option Block
to_block s = block (get_text s) (after (get_text s))

block_back : (o : Option Block) → to_block (of_block o) ≡ o
block_back none = refl
block_back (some b) =
    rw
      (
        get-put (of_option b.nonce) (put_text (of_option b.ct) ""),
        get-put (of_option b.ct) "",
        option_back b.nonce,
        option_back b.ct,
      )
      refl

abbrev put_all : List String → String
put_all [] = ""
put_all (s ∷ ss) = put_text s (put_all ss)

abbrev joined : Option (String × String) → (String → Option (List String)) → Option (List String)
joined none next = none
joined (some (s, rest)) next = elim (next rest) [ none ↦ none | some ss ↦ some (s ∷ ss) ]

abbrev get_all : ℕ → String → Option (List String)
get_all zero s = some []
get_all (suc n) s = joined (get_text s) (get_all n)

abbrev pieces : Payload → List String
pieces p =
    of_number p.v
    ∷ (of_option p.mode
        ∷ (of_option p.wallet_kind
            ∷ (of_option p.kid
                ∷ (of_option p.salt
                    ∷ (of_block p.secret ∷ (of_block p.seed ∷ (of_flag p.kdf ∷ [])))))))

abbrev rebuilt : List String → Option Payload
rebuilt (v ∷ (mode ∷ (kind ∷ (kid ∷ (salt ∷ (secret ∷ (seed ∷ (kdf ∷ [])))))))) = some (record {
  v = to_number v;
  mode = to_option mode;
  wallet_kind = to_option kind;
  kid = to_option kid;
  salt = to_option salt;
  secret = to_block secret;
  seed = to_block seed;
  kdf = to_flag kdf;
})
rebuilt other = none

abbrev loaded : Option (List String) → Option Payload
loaded none = none
loaded (some ss) = rebuilt ss

get-put_all : (ss : List String) (n : ℕ) → n ≡ length ss → get_all n (put_all ss) ≡ some ss
get-put_all [] zero e = refl
get-put_all [] (suc n) e = absurd (omega (arith, e))
get-put_all (s ∷ ss) zero e = absurd (omega (arith, e))
get-put_all (s ∷ ss) (suc n) e =
    rw (get-put s (put_all ss), get-put_all ss n (omega (arith, e))) refl

pieces_back : (p : Payload) → rebuilt (pieces p) ≡ some p
pieces_back p =
    rw
      (
        number_back p.v,
        option_back p.mode,
        option_back p.wallet_kind,
        option_back p.kid,
        option_back p.salt,
        block_back p.secret,
        block_back p.seed,
        flag_back p.kdf,
      )
      refl

cons_full : (c : Char) (s : String) → str_eq (c before s) "" ≡ false
cons_full c s = elim (Bool-cases (str_eq (c before s) "")) [
  | inl e ↦ let p : (c before s) ≡ "" = (eq_iff (c before s) "").0 e in cc
  | inr e ↦ e
]

put_text-full : (s rest : String) → str_eq (put_text s rest) "" ≡ false
put_text-full String.[] rest = cons_full stop rest
put_text-full (String.◌∷◌ c s) rest = cons_full mark (c before put_text s rest)

abbrev opened : String → Option (String × String) → Option String
opened key none = none
opened key (some (k, plain)) = if str_eq k key then some plain else none

abbrev pub plain_crypto : Crypto
plain_crypto = record {
  Bytes = String;
  b64_encode = λ b. b;
  b64_decode = λ s. some s;
  dumps = λ p. put_all (pieces p);
  loads = λ s. loaded (get_all 8 s);
  utf8_encode = λ s. s;
  utf8_decode = λ b. some b;
  free_digest = λ kek salt. kek;
  hash_secret_raw = λ secret salt. secret;
  aes_encrypt = λ key nonce plain. put_text key plain;
  aes_decrypt = λ key nonce ct. opened key (get_text ct);
  cryptocode_encrypt = λ seal text key. text;
  cryptocode_decrypt = λ text key. some text;
}

json_lem : (p : Payload) → loaded (get_all 8 (put_all (pieces p))) ≡ some p
json_lem p = rw (get-put_all (pieces p) 8 (omega arith)) (pieces_back p)

aes_opens_lem : (key nonce plain : String) → opened key (get_text (put_text key plain)) ≡ some plain
aes_opens_lem key nonce plain = rw (get-put key plain, eq_refl key) refl

aes_authentic_lem :
    (key key' nonce plain found : String)
    → opened key' (get_text (put_text key plain)) ≡ some found
    → key' ≡ key
aes_authentic_lem key key' nonce plain found h = elim (Bool-cases (str_eq key key')) [
  | inl e ↦ sym ((eq_iff key key').0 e)
  | inr e ↦ let g = rw (get-put key plain, e) at h in cc
]

pub plain_crypto-IsSound : IsSound plain_crypto
plain_crypto-IsSound = record {
  b64 = λ b. refl;
  json = json_lem;
  json_full = λ p. put_text-full (of_number p.v) _;
  utf8 = λ s. refl;
  aes_opens = aes_opens_lem;
  aes_authentic = aes_authentic_lem;
  cryptocode_opens = λ seal text key. refl;
}
