-- ===== src/Cheques/Refunds.antt =====
-- A cheque is refunded at most once: what is canceled is refused.
use text.Mathlib.Text.{◌==◌ as str_eq}
use my_mtlwallet_bot.Prelude.{ℕ, String, Option, ◌==◌}
use my_mtlwallet_bot.Wallets.{WalletRepository}
use my_mtlwallet_bot.Cheques.{StellarService}
use my_mtlwallet_bot.Cheques.Claim.{ClaimResult, Settings, State}
use my_mtlwallet_bot.Cheques.Cancel.{cancel_cheque}

module _ (settings : Settings) (service : StellarService) (repository : WalletRepository) where
  open repository use {Db}

  module _ (amount : ℕ → String → String) (user_id : ℕ) (uuid : String) (state : State Db) where
    abbrev outcome : Option ClaimResult × State Db
    outcome = cancel_cheque settings service repository amount user_id uuid state
