-- ===== src/Cheques/Cancel.antt =====
-- bot/core/use_cases/cheque/cancel_cheque.py.
use my_mtlwallet_bot.Prelude.{
  ℕ, ◌-◌, String, true, false, Option, none, some, leb, ◌==◌, if◌then◌else◌,
}
use my_mtlwallet_bot.Wallets.{Wallet, given, WalletRepository}
use my_mtlwallet_bot.Cheques.{
  Cheque, canceled, missing, found, ambiguous, get_by_uuid, get_receive_count, cancel,
  StellarService,
}
use my_mtlwallet_bot.Cheques.Claim.{ClaimResult, success, failure, Settings, State}

module _ (settings : Settings) (service : StellarService) (repository : WalletRepository) where
  open repository use {Db, get_default_wallet}

  sign_refund : String → Option Wallet → Option ClaimResult
  sign_refund tx_xdr none = some (failure "Master wallet not found")
  sign_refund tx_xdr (some master) = elim (given master.secret_key) [
    | none ↦ some (failure "Master wallet secret not available")
    | some text ↦ elim (given (settings.decrypt text "0")) [
      | none ↦ some (failure "Failed to decrypt master secret")
      | some master_secret ↦ elim (service.sign_xdr tx_xdr master_secret) [
        | none ↦ none
        | some signed_xdr ↦ some (success signed_xdr)
      ]
    ]
  ]

  -- The refund, after the cheque is canceled; `amount` is the sum for the uses that remain.
  unfoldable pub refund : (ℕ → String → String) → ℕ → String → Cheque → ℕ → Db → Option ClaimResult
  unfolding sign_refund
  refund amount user_id uuid cheque remaining wallets = elim (get_default_wallet user_id wallets) [
    | none ↦ some (failure "User wallet not found")
    | some wallet ↦ elim (given cheque.asset) [
      | none ↦ some (failure "Cheque asset not defined")
      | some asset ↦
          (let (code, issuer) = settings.split_asset asset in
            elim (service.build_payment_transaction settings.cheque_public_key wallet.public_key
              code issuer (amount remaining cheque.amount) (settings.first_16 uuid)) [
                | none ↦ none
                | some tx_xdr ↦ sign_refund tx_xdr (get_default_wallet 0 wallets)
              ])
    ]
  ]

  -- CancelCheque.execute; `none` where an exception leaves it
  unfoldable pub cancel_cheque :
      (ℕ → String → String) → ℕ → String → State Db → Option ClaimResult × State Db
  cancel_cheque amount user_id uuid state =
      let (answered, tables) = cancel uuid user_id state.tables in
      let state' = record state { tables = tables } in
      let received = get_receive_count uuid none state.tables in
      elim (get_by_uuid uuid (some user_id) state.tables) [
        | missing ↦ (some (failure "Cheque not found or access denied"), state)
        | ambiguous ↦ (none, state)
        | found cheque ↦
            if cheque.status == canceled
            then (some (failure "Cheque already canceled"), state)
            else if leb cheque.count received
            then (some (failure "Nothing to cancel"), state)
            else elim answered [
              | none ↦ (none, state')
              | some false ↦ (some (failure "Failed to canel cheque"), state')
              | some true ↦ (
                refund amount user_id uuid cheque (cheque.count - received) state.wallets,
                state',
              )
            ]
      ]
