-- ===== src/Cheques/Claim.antt =====
-- bot/core/use_cases/cheque/claim_cheque.py.
use text.Mathlib.Text.{◌==◌ as str_eq}
use my_mtlwallet_bot.Prelude.{
  ℕ, String, Bool, true, false, ◌||◌, Option, none, some, List, [], ◌∷◌, ◌++◌, map, ltb, leb,
  if◌then◌else◌,
}
use my_mtlwallet_bot.Wallets.{Wallet, given, WalletRepository}
use my_mtlwallet_bot.Wallets.AddWallet.{add_wallet}
use my_mtlwallet_bot.Cheques.{
  Cheque, ChequeTables, missing, found, ambiguous, get_by_uuid, get_receive_count, add_history,
  StellarService,
}

-- ClaimResult: the XDR of a success, or the message of a failure.
pub data ClaimResult : Type 0 where
  success : String → ClaimResult
  failure : String → ClaimResult

-- `cheque.asset.split(":")`: the code, and the issuer if there is one, with the text functions of
-- Python as arguments; and what the configuration gives.
pub record Settings : Type 0 where
  pub cheque_public_key : String
  pub split_asset : String → String × Option String
  pub first_16 : String → String
  pub str : ℕ → String
  pub decrypt : String → String → Option String

pub record State (Wallets : Type 0) : Type 0 where
  pub tables : ChequeTables
  pub wallets : Wallets

abbrev pub trusted_issuer : String
trusted_issuer = "GACKTN5DAZGWXRWB2WLM6OPBDHAMT6SJNGLJZPQMEZBUR4JUGBX2UK7V"

abbrev pub assets_to_trust : List String
assets_to_trust = "MTL" ∷ "EURMTL" ∷ "SATSMTL" ∷ "USDM" ∷ []

module _ (settings : Settings) (service : StellarService) (repository : WalletRepository) where
  open service use {
    Operation, Transaction, generate_keypair, create_create_account_op, create_change_trust_op,
    create_payment_op, build_transaction, sign_transaction, to_xdr,
  }
  open repository use {Db, get_default_wallet}

  -- The operations before the payment, which only a new wallet needs.
  unfoldable pub opening_operations : Bool → Wallet → Wallet → List Operation
  opening_operations was_new wallet master =
      if was_new
      then create_create_account_op wallet.public_key "5" master.public_key
        ∷ map (λ code. create_change_trust_op code trusted_issuer wallet.public_key) assets_to_trust
      else []

  unfoldable pub payment : Cheque → String → Wallet → Operation
  payment cheque asset wallet =
      let (code, issuer) = settings.split_asset asset in
      create_payment_op wallet.public_key code issuer cheque.amount settings.cheque_public_key

  -- `sign_transaction` under a condition
  abbrev pub signed_if : Bool → String → Transaction → Option Transaction
  signed_if true secret tx = sign_transaction tx secret
  signed_if false secret tx = some tx

  -- The second signature, of a new wallet; none where a call raises.
  unfoldable pub countersigned : Bool → ℕ → Wallet → Transaction → Option ClaimResult
  countersigned false user_id wallet tx = some (success (to_xdr tx))
  countersigned true user_id wallet tx = elim (given wallet.secret_key) [
    | none ↦ some (failure "Wallet secret not available")
    | some text ↦ elim (given (settings.decrypt text (settings.str user_id))) [
      | none ↦ some (failure "Failed to decrypt wallet secret")
      | some secret ↦ elim (sign_transaction tx secret) [
        | none ↦ none
        | some tx' ↦ some (success (to_xdr tx'))
      ]
    ]
  ]

  -- From the transaction's operations to the answer.
  unfoldable pub build_and_sign :
      ℕ → String → Bool → Wallet → Wallet → String → List Operation → Option ClaimResult
  build_and_sign user_id uuid was_new wallet master master_secret ops =
      let source = if was_new then master.public_key else settings.cheque_public_key in
      elim (build_transaction source ops (settings.first_16 uuid)) [
        | none ↦ none
        | some tx ↦ elim (signed_if (was_new || str_eq source master.public_key) master_secret tx) [
          | none ↦ none
          | some tx' ↦ countersigned was_new user_id wallet tx'
        ]
      ]

  -- Everything after the history row; it reads the wallets and writes nothing.
  unfoldable pub answer : ℕ → String → Cheque → Bool → Wallet → Db → Option ClaimResult
  unfolding opening_operations payment build_and_sign
  answer user_id uuid cheque was_new wallet wallets = elim (get_default_wallet 0 wallets) [
    | none ↦ some (failure "Master wallet not found")
    | some master ↦ elim (given master.secret_key) [
      | none ↦ some (failure "Master wallet secret not available")
      | some text ↦ elim (given (settings.decrypt text "0")) [
        | none ↦ some (failure "Failed to decrypt master secret")
        | some master_secret ↦ elim (given cheque.asset) [
          | none ↦ some (failure "Cheque asset not defined")
          | some asset ↦
              build_and_sign user_id uuid was_new wallet master master_secret
                (opening_operations was_new wallet master ++ payment cheque asset wallet ∷ [])
        ]
      ]
    ]
  ]

  -- The user's wallet, or a new free one from a fresh key pair; none where it is refused.
  unfoldable pub wallet_for_claim : ℕ → ℕ → Db → Option (Wallet × Bool) × Db
  wallet_for_claim seed user_id wallets =
      let (public_key, secret) = generate_keypair seed in
      let (added, wallets') =
        add_wallet repository user_id public_key
          (record {
            secret_key = some secret;
            is_free = true;
            is_default = true;
            seed_key = none;
            wallet_crypto_v2 = none;
            is_read_only = false;
          })
          wallets in
      elim (get_default_wallet user_id wallets) [
        | some wallet ↦ (some (wallet, false), wallets)
        | none ↦ elim added [
          | none ↦ (none, wallets')
          | some wallet ↦ (some (wallet, true), wallets')
        ]
      ]

  -- The history row comes before everything that may still fail.
  unfoldable pub record_and_answer :
      ℕ → ℕ → String → Cheque → State Db → Option ClaimResult × State Db
  record_and_answer seed user_id uuid cheque state =
      let (ready, wallets) = wallet_for_claim seed user_id state.wallets in
      let recorded = add_history cheque.cheque_id user_id state.tables in
      elim ready [
        | none ↦ (none, record state { wallets = wallets })
        | some (wallet, was_new) ↦ (
          answer user_id uuid cheque was_new wallet wallets,
          record { tables = recorded; wallets = wallets },
        )
      ]

  -- ClaimCheque.execute; `none` where an exception leaves it
  unfoldable pub claim_cheque : ℕ → ℕ → String → State Db → Option ClaimResult × State Db
  claim_cheque seed user_id uuid state = elim (get_by_uuid uuid none state.tables) [
    | missing ↦ (some (failure "Cheque not found"), state)
    | ambiguous ↦ (none, state)
    | found cheque ↦
        if leb cheque.count (get_receive_count uuid none state.tables)
        then (some (failure "Cheque limit reached"), state)
        else if ltb 0 (get_receive_count uuid (some user_id) state.tables)
        then (some (failure "Cheque already received by user"), state)
        else record_and_answer seed user_id uuid cheque state
  ]
