-- ===== src/Payments.antt =====
-- bot/core/use_cases/payment/send_payment.py, bot/core/use_cases/trade and
-- bot/core/use_cases/cheque/create_cheque.py: the checks before a transaction is built. Floats and
-- the Stellar service are arguments.
pub mod Send
use text.Mathlib.Text.{◌==◌ as str_eq}
use my_mtlwallet_bot.Prelude.{
  ℕ, String, Bool, true, false, ◌||◌, not, Option, none, some, List, if◌then◌else◌, leb, ◌==◌,
}
use my_mtlwallet_bot.Wallets.{Wallet, WalletRepository}

-- PaymentResult: the XDR of a success, or the message of a failure.
pub data PaymentResult : Type 0 where
  success : String → PaymentResult
  failure : String → PaymentResult

pub record Asset : Type 0 where
  pub code : String
  pub issuer : Option String

-- What a call that builds a transaction gives: an XDR, or the text of the exception.
pub data Built : Type 0 where
  built : String → Built
  raised : String → Built

-- The tests and functions of Python's floats that the checks use.
pub record Floats : Type 1 where
  pub Float : Type 0
  pub is_at_most_zero : Float → Bool
  pub is_negative : Float → Bool
  pub is_infinite : Float → Bool
  pub times : Float → ℕ → Float
  pub str : Float → String

-- `try: ... return PaymentResult(success=True, xdr=xdr) except Exception as e: ...`
abbrev pub result_of : Built → PaymentResult
result_of (built xdr) = success xdr
result_of (raised message) = failure message

module _ (floats : Floats) (repository : WalletRepository) where
  open floats use {Float, is_at_most_zero, is_negative, is_infinite, times, str}
  open repository use {Db, get_default_wallet}

  -- The arguments of `SendPayment.execute` after the user.
  pub record Payment : Type 0 where
    pub destination_address : String
    pub asset : Asset
    pub amount : Float
    pub memo : Option String
    pub cancel_offers : Bool
    pub create_account : Bool
    pub destination_check_address : Option String

  -- `destination_check_address or destination_address`
  abbrev pub checked_address : Payment → String
  checked_address p = elim p.destination_check_address [
    | none ↦ p.destination_address
    | some address ↦ if str_eq address "" then p.destination_address else address
  ]

  -- The check of the destination: a failure's message.
  abbrev pub objection : Payment → Bool → Option String
  objection p exists =
      if p.create_account
      then (if exists
          then some "Destination account already exists"
          else if not (str_eq p.asset.code "XLM")
          then some "Can only create account with XLM (native asset)"
          else none)
      else if not exists
      then some "Destination account does not exist"
      else none

  -- SendPayment.execute; none where the check of the account raises
  unfoldable pub send_payment :
      (String → Option Bool)
      → (String → Payment → String → Built)
      → ℕ
      → Payment
      → Db
      → Option PaymentResult
  send_payment check_account_exists build_payment_transaction user_id p db =
      if is_at_most_zero p.amount || is_infinite p.amount
      then some (failure "Amount must be positive and finite (not unlimited)")
      else elim (get_default_wallet user_id db) [
        | none ↦ some (failure "User wallet not found")
        | some source ↦ elim (check_account_exists (checked_address p)) [
          | none ↦ none
          | some exists ↦ elim (objection p exists) [
            | some message ↦ some (failure message)
            | none ↦ some (result_of (build_payment_transaction source.public_key p (str p.amount)))
          ]
        ]
      ]

  -- SwapAssets.execute
  unfoldable pub swap_assets :
      (String → Asset → String → Asset → String → List Asset → Bool → Bool → Built)
      → ℕ
      → Asset
      → Float
      → Asset
      → Float
      → List Asset
      → Bool
      → Bool
      → Db
      → PaymentResult
  swap_assets build user_id send_asset send_amount receive_asset receive_amount path strict_receive
        cancel_offers db =
      if is_at_most_zero send_amount
        || is_at_most_zero receive_amount
        || is_infinite send_amount
        || is_infinite receive_amount
      then failure "Amounts must be positive and finite"
      else elim (get_default_wallet user_id db) [
        | none ↦ failure "User wallet not found"
        | some source ↦ result_of (
            build source.public_key send_asset (str send_amount) receive_asset (str receive_amount)
              path strict_receive cancel_offers)
      ]

  -- ManageOffer.execute
  unfoldable pub manage_offer :
      (String → Asset → Asset → String → String → ℕ → Built)
      → ℕ
      → Asset
      → Asset
      → Float
      → Float
      → ℕ
      → Db
      → PaymentResult
  manage_offer build user_id selling buying amount price offer_id db =
      if is_negative amount || is_negative price
      then failure "Amount and price must be non-negative"
      else elim (get_default_wallet user_id db) [
        | none ↦ failure "User wallet not found"
        | some source ↦
            result_of (build source.public_key selling buying (str amount) (str price) offer_id)
      ]

  -- CreateCheque.execute, with the cheque account and its asset
  unfoldable pub create_cheque :
      (String → String → Asset → String → String → Built)
      → String
      → Asset
      → ℕ
      → Float
      → ℕ
      → String
      → Db
      → PaymentResult
  create_cheque build cheque_public_key eurmtl_asset user_id amount count memo db =
      if is_at_most_zero amount
      then failure "Amount must be positive"
      else if leb count 0
      then failure "Count must be positive"
      else elim (get_default_wallet user_id db) [
        | none ↦ failure "User wallet not found"
        | some source ↦
            result_of (
              build source.public_key cheque_public_key eurmtl_asset (str (times amount count))
                memo)
      ]
