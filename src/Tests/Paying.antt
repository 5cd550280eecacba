-- ===== src/Tests/Paying.antt =====
-- A payment on a concrete input, with whole numbers for floats.
use my_mtlwallet_bot.Prelude.{ℕ, ◌*◌, ◌≡◌, refl, String, Bool, true, false, Option, none, some, leb}
use my_mtlwallet_bot.Wallets.{Wallet}
use my_mtlwallet_bot.Payments.{Built, built, Floats, Payment, send_payment}
use my_mtlwallet_bot.Payments.Send.{IsSound, send_payment-IsSound}
use my_mtlwallet_bot.Tests.Services.{wallets, table}

abbrev whole_numbers : Floats
whole_numbers = record {
  Float = ℕ;
  is_at_most_zero = λ n. leb n 0;
  is_negative = λ n. false;
  is_infinite = λ n. false;
  times = λ n count. n * count;
  str = λ n. "5";
}

abbrev request : Payment whole_numbers wallets
request = record {
  destination_address = "GB";
  asset = record { code = "XLM"; issuer = none };
  amount = 5;
  memo = none;
  cancel_offers = false;
  create_account = true;
  destination_check_address = none;
}

abbrev absent : String → Option Bool
absent address = some false

abbrev build : String → Payment whole_numbers wallets → String → Built
build source p amount = built source

send_payment-IsSound_example :
    (source : Wallet) × IsSound whole_numbers wallets absent request source 7 table
    × (build source.public_key request "5" ≡ built "GA")
unfolding send_payment
send_payment-IsSound_example =
    send_payment-IsSound whole_numbers wallets absent build 7 request table "GA" refl
