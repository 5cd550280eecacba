-- ===== src/Tests/Webhooks.antt =====
-- Webhooks on concrete inputs: floats are whole numbers, the coordinator keeps a list.
use my_mtlwallet_bot.Prelude.{
  ℕ, String, ◌≡◌, refl, sym, ap, ◌∙◌, Bool, true, false, Option, none, some, List, [], ◌∷◌, map,
  ltb, All, inl, inr,
}
use my_mtlwallet_bot.Notification.{BlockchainNotification, idempotency_key, int}
use my_mtlwallet_bot.NotificationHistory.{field}
use my_mtlwallet_bot.Wallets.Table.{Row}
use my_mtlwallet_bot.Events.{
  Python, NotificationOperation, Payload, snapshot_wallet, first_index, optional,
}
use my_mtlwallet_bot.Events.Webhook.{
  event_for, event_of, process_notification, notify_wallets, process_trades, hand_over,
  display_asset_code, display_amount_value,
}
use my_mtlwallet_bot.Events.Identity.{own_wallets-same_key}
use my_mtlwallet_bot.Subscriptions.{elem}
use my_mtlwallet_bot.Events.Meant.{IsFor, IsNamed}
use my_mtlwallet_bot.Events.Identity.{Among}
use my_mtlwallet_bot.Events.Recipients.{IsMeant, process_notification-kept}

abbrev python : Python
python = record {
  Float = ℕ;
  zero = 0;
  less = ltb;
  shown = λ x. "5.0";
  show = λ x. "id";
  decimal = λ s. none;
}

abbrev wallet_of : ℕ → ℕ → String → Row
wallet_of id user key = record {
  row_id = id;
  user_id = user;
  public_key = key;
  default_wallet = 0;
  free_wallet = 1;
  use_pin = 0;
  secret_key = none;
  seed_key = none;
  wallet_crypto_v2 = none;
  need_delete = 0;
  balances = none;
  balances_event_id = "0";
  last_event_id = "0";
  balances_updated_at = none;
}

-- User 7 has two wallets, and pays 5 from one to the other; user 8 has nothing to do with it.
abbrev wallets : List Row
wallets = wallet_of 1 7 "GA" ∷ wallet_of 2 7 "GB" ∷ wallet_of 3 8 "GC" ∷ []

abbrev own_payment : NotificationOperation ℕ
own_payment = record {
  op_id = "77";
  operation = "payment";
  dt = 1000;
  from_account = some "GA";
  for_account = some "GB";
  payment_amount = 5;
  payment_asset = "XLM";
  path_received_amount = 0;
  path_received_asset = "XLM";
  trade_bought_amount = 0;
  trade_bought_asset = "XLM";
  trade_sold_amount = 0;
  trade_sold_asset = "XLM";
  offer_amount = 0;
  offer_buying_asset = "XLM";
  data_name = none;
  transaction_hash = some "aa";
}

abbrev webhook : Payload ℕ
webhook = record {
  subscription = some "GA";
  info = ("index", int 3) ∷ [];
  transaction_hash = some "aa";
  trades = [];
}

abbrev decode : NotificationOperation ℕ → String → ℕ → Option String → Option String
decode op key user view = some key

abbrev Log : Type 0
Log = List BlockchainNotification

abbrev log : BlockchainNotification → Log → Bool × Log
log n s = (true, n ∷ s)

abbrev IsUser7 : Log → Type 0
IsUser7 s = All (λ (n : BlockchainNotification). n.user_id ≡ 7) s

abbrev two_events : Log
two_events =
    (process_notification python decode log wallets [] webhook 2000 (some own_payment) []).1

both_sent : map (λ (n : BlockchainNotification). n.message) two_events ≡ "GB" ∷ "GA" ∷ []
unfolding process_notification notify_wallets process_trades hand_over event_for event_of
    first_index field
both_sent = refl

owner :
    (r : Row) → Among r wallets → IsNamed python own_payment webhook r.public_key → r.user_id ≡ 7
unfolding field
owner r (inl e) k = sym (ap (λ (x : Row). x.user_id) e)
owner r (inr (inl e)) k = sym (ap (λ (x : Row). x.user_id) e)
owner r (inr (inr (inl e))) k =
    let key : "GC" ≡ r.public_key = ap (λ (x : Row). x.public_key) e in
    elim k [
      | inl a ↦
          let g : false ≡ true = ap (λ o. elem "GC" (optional o)) (a ∙ ap some (sym key)) in
          absurd (cc g)
      | inr (inl a) ↦
          let g : false ≡ true = ap (λ o. elem "GC" (optional o)) (a ∙ ap some (sym key)) in
          absurd (cc g)
      | inr (inr a) ↦ absurd (cc a)
    ]
owner r (inr (inr (inr i))) k = elim i [ ]

for_user_7 :
    (kind asset : String) (amount : ℕ) (n : BlockchainNotification)
    → IsFor python wallets [] (IsNamed python own_payment webhook) kind asset amount n
    → n.user_id ≡ 7
for_user_7 kind asset amount n x = x.user ∙ owner x.row x.listed x.keyed

meant_for_user_7 :
    (n : BlockchainNotification)
    → IsMeant python decode log wallets [] webhook own_payment n
    → n.user_id ≡ 7
unfolding display_asset_code display_amount_value
meant_for_user_7 n (inl x) = for_user_7 "payment" "XLM" 5 n x
meant_for_user_7 n (inr (trade, (among, rest))) = elim among [ ]

process_notification-kept_example : IsUser7 two_events
process_notification-kept_example =
    process_notification-kept python decode log wallets [] webhook 2000 own_payment IsUser7
      (λ n s meant p. (meant_for_user_7 n meant, p)) [] tt

abbrev event_to : Row → BlockchainNotification
event_to row = event_of python (snapshot_wallet row) own_payment none row.public_key 3

own_wallets-same_key_example :
    idempotency_key (event_to (wallet_of 1 7 "GA"))
    ≡ idempotency_key (event_to (wallet_of 2 7 "GB"))
unfolding event_for
own_wallets-same_key_example =
    own_wallets-same_key python decode log (snapshot_wallet (wallet_of 1 7 "GA"))
      (snapshot_wallet (wallet_of 2 7 "GB")) own_payment none [] (some 3)
      (event_to (wallet_of 1 7 "GA")) (event_to (wallet_of 2 7 "GB")) refl refl refl
