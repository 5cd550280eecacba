-- ===== src/Payments/Send.antt =====
-- When a payment succeeds.
use text.Mathlib.Text.{◌==◌ as str_eq}
use my_mtlwallet_bot.Prelude.{
  ℕ, String, ◌≡◌, ap, ◌∙◌, arith, Bool, true, false, ◌||◌, not, Option, none, some, Bool-cases,
  Option-cases, inl, inr,
}
use my_mtlwallet_bot.Wallets.{Wallet, WalletRepository}
use my_mtlwallet_bot.Payments.{
  PaymentResult, success, Built, built, raised, Floats, result_of, Payment, checked_address,
  objection, send_payment,
}

result_of-success : (b : Built) (xdr : String) → result_of b ≡ success xdr → b ≡ built xdr
result_of-success (built x) xdr h = cc
result_of-success (raised m) xdr h = cc

neither : (a b : Bool) → (a || b) ≡ false → (a ≡ false) × (b ≡ false)
neither a b h = ground arith

module _ (floats : Floats) (repository : WalletRepository) where
  open repository use {Db, get_default_wallet}

  abbrev ThePayment : Type 0
  ThePayment = Payment floats repository

  -- What a payment request needs: an amount that passes, a wallet of the user, and a destination
  -- that is there, or one to create, in the native asset, that is not.
  pub record IsSound (check_account_exists : String → Option Bool) (p : ThePayment)
      (source : Wallet) (user_id : ℕ) (db : Db) : Type 0 where
    pub not_at_most_zero : floats.is_at_most_zero p.amount ≡ false
    pub not_infinite : floats.is_infinite p.amount ≡ false
    pub wallet : get_default_wallet user_id db ≡ some source
    pub destination :
        check_account_exists (checked_address floats repository p) ≡ some (not p.create_account)
    pub native : p.create_account ≡ true → str_eq p.asset.code "XLM" ≡ true

  module _ (check_account_exists : String → Option Bool)
      (build_payment_transaction : String → ThePayment → String → Built) (user_id : ℕ)
      (p : ThePayment) (db : Db) where
    abbrev outcome : Option PaymentResult
    outcome =
        send_payment floats repository check_account_exists build_payment_transaction user_id p db

    -- A destination that meets no objection.
    objection-none :
        (exists : Bool)
        → objection floats repository p exists ≡ none
        → (exists ≡ not p.create_account)
          × (p.create_account ≡ true → str_eq p.asset.code "XLM" ≡ true)
    objection-none exists h = ground arith

    -- A payment that succeeds is the transaction built from the user's default wallet for the
    -- request as given: its amount is not at most zero and not infinite, which a NaN satisfies
    -- too, the destination exists, or is to be created in XLM and does not exist.
    pub send_payment-IsSound :
        (xdr : String)
        → outcome ≡ some (success xdr)
        → (source : Wallet) × IsSound check_account_exists p source user_id db
          × (build_payment_transaction source.public_key p (floats.str p.amount) ≡ built xdr)
    unfolding send_payment
    send_payment-IsSound xdr h =
        elim (Bool-cases (floats.is_at_most_zero p.amount || floats.is_infinite p.amount)) [
          | inl bad ↦ let g = rw (bad, send_payment) at h in cc
          | inr good ↦ elim (Option-cases (get_default_wallet user_id db)) [
            | inl w ↦ let g = rw (good, w, send_payment) at h in cc
            | inr (source, w) ↦
                elim (Option-cases (check_account_exists (checked_address floats repository p))) [
                  | inl x ↦ let g = rw (good, w, x, send_payment) at h in cc
                  | inr (exists, x) ↦ elim (Option-cases (objection floats repository p exists)) [
                    | inr (message, o) ↦ let g = rw (good, w, x, o, send_payment) at h in cc
                    | inl o ↦
                        let g = rw (good, w, x, o, send_payment) at h in
                        let (right, xlm) = objection-none exists o in
                        let passed =
                          neither (floats.is_at_most_zero p.amount) (floats.is_infinite p.amount)
                            good in
                        (
                          source,
                          record {
                            not_at_most_zero = passed.0;
                            not_infinite = passed.1;
                            wallet = w;
                            destination = x ∙ ap some right;
                            native = xlm;
                          },
                          result_of-success _ xdr cc,
                        )
                  ]
                ]
          ]
        ]
