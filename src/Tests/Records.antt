-- ===== src/Tests/Records.antt =====
-- The theorems on cheques and on the notification history, on concrete inputs.
use my_mtlwallet_bot.Prelude.{
  ℕ, ◌≡◌, ◌≤◌, refl, String, none, some, [], ◌∷◌, arith, length, take, All, ◌==◌, if◌then◌else◌,
}
use my_mtlwallet_bot.Prelude.Dict
use my_mtlwallet_bot.Notification.{BlockchainNotification, string, int}
use my_mtlwallet_bot.Cheques.{
  Cheque, ChequeTables, StellarService, get_by_uuid, rows_of, select_cheques,
}
use my_mtlwallet_bot.Cheques.Claim.{Settings, State, claim_cheque}
use my_mtlwallet_bot.Cheques.Limits.{IsWithin, claim_cheque-IsWithin}
use my_mtlwallet_bot.NotificationHistory.{
  NotificationOperation, History, Service, add_delivered, get_recent, keep_recent, records_of,
  delivered_record, field, record_delivered, is_recorded, cleanup_user, push,
}
use my_mtlwallet_bot.NotificationHistory.Bounded.{IsWellFormed, add_delivered-IsWellFormed}
use my_mtlwallet_bot.NotificationHistory.Recent.{get_recent-IsRecent, IsRecent}
use my_mtlwallet_bot.Tests.{first_event}
use my_mtlwallet_bot.Tests.Services.{Table, wallets, wallet}

abbrev settings : Settings
settings = record {
  cheque_public_key = "GC";
  split_asset = λ asset. (asset, none);
  first_16 = λ text. text;
  str = λ n. "7";
  decrypt = λ text key. some text;
}

abbrev stellar : StellarService
stellar = record {
  Operation = String;
  Transaction = String;
  generate_keypair = λ seed. ("GN", "SN");
  create_create_account_op = λ destination balance source. destination;
  create_change_trust_op = λ code issuer source. code;
  create_payment_op = λ destination code issuer amount source. amount;
  build_transaction = λ source ops memo. some source;
  sign_transaction = λ tx secret. some tx;
  to_xdr = λ tx. tx;
  build_payment_transaction = λ source destination code issuer amount memo. some amount;
  sign_xdr = λ tx secret. some tx;
}

abbrev cheque : Cheque
cheque = record {
  cheque_id = 5;
  uuid = "u-5";
  user_id = 7;
  amount = "10";
  count = 2;
  status = 0;
  asset = some "EURMTL";
}

abbrev tables : ChequeTables
tables = record { cheques = cheque ∷ []; history = [] }

-- User 7 and the master, user 0, have wallets.
abbrev both : Table
both user =
    if 7 == user
    then some wallet
    else if 0 == user
    then some (record wallet { user_id = 0; public_key = "GM"; secret_key = some "SM" })
    else none

abbrev state : State Table
state = record { tables = tables; wallets = both }

tables-IsWithin : IsWithin "u-5" cheque tables
unfolding get_by_uuid rows_of select_cheques
tables-IsWithin = record { known = refl; total = omega arith; each = λ user. omega arith }

claim_cheque-IsWithin_example :
    IsWithin "u-5" cheque (claim_cheque settings stellar wallets 1 7 "u-5" state).1.tables
claim_cheque-IsWithin_example =
    claim_cheque-IsWithin settings stellar wallets 1 7 "u-5" cheque state tables-IsWithin

abbrev sum_for : ℕ → String → String
sum_for remaining amount = amount

abbrev service : Service ℕ
service = record {
  ttl = 43200;
  max_per_user = 50;
  zero_float = 0;
  to_float = λ value. none;
  shown = λ value. "?";
}

abbrev delivered_event : BlockchainNotification
delivered_event = record first_event {
  payload = ("wallet_id", int 3) ∷ ("public_key", string "GA") ∷ [];
}

abbrev no_history : History ℕ
no_history = []

no_history-IsWellFormed : IsWellFormed 50 no_history
no_history-IsWellFormed = λ user. record { bounded = omega arith; once = λ wanted. omega arith }

abbrev operation : NotificationOperation
operation = record {
  operation = "payment";
  display_asset_code = none;
  display_amount_value = int 5;
}

abbrev after_delivery : History ℕ
after_delivery = (7, delivered_record service 1000 1000 "r1" delivered_event 3 "GA" ∷ []) ∷ []

add_delivered-IsWellFormed_example : IsWellFormed 50 after_delivery
unfolding add_delivered field record_delivered is_recorded cleanup_user push Dict.put
add_delivered-IsWellFormed_example =
    add_delivered-IsWellFormed service 1000 1000 "r1" delivered_event no_history after_delivery
      no_history-IsWellFormed refl

get_recent-IsRecent_example :
    let (answer, h) = get_recent 43200 1000 7 10 after_delivery in
    (answer ≡ take 10 (keep_recent 43200 1000 (records_of 7 after_delivery)))
    × (length answer ≤ 10)
    × All (IsRecent 43200 1000) answer
get_recent-IsRecent_example = get_recent-IsRecent 43200 1000 7 10 after_delivery
