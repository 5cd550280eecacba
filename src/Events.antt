-- ===== src/Events.antt =====
-- Webhooks of bot/infrastructure/services/notification_service.py, with the operation of
-- bot/core/models/notification.py: which wallets a payload concerns, which events are made for
-- them, and how they reach the coordinator. `_map_payload_to_operation`, the texts of
-- `decode_db_effect` and the coordinator's `accept` are arguments.
pub mod Webhook
pub mod Delivery
pub mod Identity
pub mod Meant
pub mod Recipients
use Prim.Native.String.{◌++◌ as ◌followed◌}
use text.Mathlib.Text.{◌==◌ as str_eq}
use my_mtlwallet_bot.Prelude.{
  ℕ, ◌+◌, String, Bool, true, false, not, ◌||◌, ◌&&◌, Option, none, some, List, [], ◌∷◌, ◌++◌, map,
  ltb, ◌==◌, if◌then◌else◌,
}
use my_mtlwallet_bot.Notification.{
  Primitive, string, int, float, bool, null, BlockchainNotification, str,
}
use my_mtlwallet_bot.NotificationHistory.{text_or, is_falsy, field}
use my_mtlwallet_bot.Subscriptions.{elem}
use my_mtlwallet_bot.Wallets.Table.{Row, select}

-- What the code uses of Python: floats, `str` of a value or None, and `int` of a text that
-- `isdecimal` accepts.
pub record Python : Type 1 where
  pub Float : Type 0
  pub zero : Float
  pub less : Float → Float → Bool
  pub shown : Float → String
  pub show : Option Primitive → String
  pub decimal : String → Option ℕ

pub record NotificationOperation (Float : Type 0) : Type 0 where
  pub op_id : String
  pub operation : String
  pub dt : ℕ
  pub from_account : Option String
  pub for_account : Option String
  pub payment_amount : Float
  pub payment_asset : String
  pub path_received_amount : Float
  pub path_received_asset : String
  pub trade_bought_amount : Float
  pub trade_bought_asset : String
  pub trade_sold_amount : Float
  pub trade_sold_asset : String
  pub offer_amount : Float
  pub offer_buying_asset : String
  pub data_name : Option String
  pub transaction_hash : Option String

pub record NotificationWallet : Type 0 where
  pub wallet_id : ℕ
  pub user_id : ℕ
  pub public_key : String

pub record NotificationFilter (Float : Type 0) : Type 0 where
  pub user_id : ℕ
  pub public_key : Option String
  pub asset_code : Option String
  pub min_amount : Float
  pub operation_type : String

-- One side of a trade: its own fields, and those of the nested object.
pub record Side : Type 0 where
  pub asset_code : Option String
  pub asset_type : Option Primitive
  pub nested_code : Option String
  pub nested_type : Option Primitive

-- A trade, with the floats of its amounts.
pub record Trade (Float : Type 0) : Type 0 where
  pub trade_type : String
  pub seller_id : Option String
  pub amount_sold : Float
  pub amount_bought : Float
  pub sold : Side
  pub bought : Side

-- A payload; `info` is its operation, less the trades.
pub record Payload (Float : Type 0) : Type 0 where
  pub subscription : Option String
  pub info : List (String × Primitive)
  pub transaction_hash : Option String
  pub trades : List (Trade Float)

abbrev pub is_path_payment : String → Bool
is_path_payment op = str_eq op "path_payment_strict_send" || str_eq op "path_payment_strict_receive"

abbrev pub is_offer : String → Bool
is_offer op = str_eq op "manage_sell_offer" || str_eq op "manage_buy_offer"

abbrev pub any {ℓ} : {A : Type ℓ} → (A → Bool) → List A → Bool
any test [] = false
any test (a ∷ as_) = test a || any test as_

-- `value is None or value == other`
abbrev pub unset_or : Option String → String → Bool
unset_or none other = true
unset_or (some s) other = str_eq s other

abbrev pub is_truthy : Option Primitive → Bool
is_truthy none = false
is_truthy (some p) = not (is_falsy p)

-- `value in ("native", 0)`
abbrev pub is_native : Option Primitive → Bool
is_native none = false
is_native (some (string s)) = str_eq s "native"
is_native (some (int n)) = n == 0
is_native (some (float shown)) = is_falsy (float shown)
is_native (some (bool b)) = not b
is_native (some null) = false

-- get_trade_asset
unfoldable pub get_trade_asset : Side → String
get_trade_asset side =
    let code = text_or "" side.asset_code in
    let nested = text_or "" side.nested_code in
    if not (str_eq code "")
    then code
    else if is_native side.asset_type
    then "XLM"
    else if not (str_eq nested "")
    then nested
    else if is_native side.nested_type
    then "XLM"
    else "?"

-- `offset` is added to the first index that is a number.
abbrev pub index_value : (String → Option ℕ) → Option Primitive → Option ℕ
index_value decimal (some (int n)) = some n
index_value decimal (some (string s)) = decimal s
index_value decimal other = none

unfoldable pub first_index : (String → Option ℕ) → ℕ → List (Option Primitive) → Option ℕ
first_index decimal offset [] = none
first_index decimal offset (value ∷ values) =
    let rest = first_index decimal offset values in
    elim (index_value decimal value) [ none ↦ rest | some n ↦ some (n + offset) ]

abbrev pub event_index_from_payload : (String → Option ℕ) → List (String × Primitive) → ℕ → Option ℕ
event_index_from_payload decimal info offset =
    first_index decimal offset
      (field "operation_index" info ∷ field "index" info ∷ field "id" info ∷ [])

abbrev pub snapshot_wallet : Row → NotificationWallet
snapshot_wallet row = record {
  wallet_id = row.row_id;
  user_id = row.user_id;
  public_key = row.public_key;
}

-- The select of the wallets that a set of accounts concerns.
abbrev pub is_notified : List String → Row → Bool
is_notified accounts row =
    elem row.public_key accounts && (row.need_delete == 0 && ltb 0 row.user_id)

abbrev pub wallets_of : List String → List Row → List NotificationWallet
wallets_of accounts rows = map snapshot_wallet (select (is_notified accounts) rows)

-- `{w.public_key: w for w in maker_wallets}.get(seller)`: the last wallet with the key.
unfoldable pub maker_of : String → List NotificationWallet → Option NotificationWallet
maker_of seller [] = none
maker_of seller (w ∷ wallets) = elim (maker_of seller wallets) [
  | some later ↦ some later
  | none ↦ if str_eq w.public_key seller then some w else none
]

-- `if seller: makers.add(seller)`
abbrev pub known_seller : Option String → List String
known_seller none = []
known_seller (some seller) = if str_eq seller "" then [] else seller ∷ []

abbrev pub optional : Option String → List String
optional none = []
optional (some s) = s ∷ []

abbrev pub trustor_of : Option Primitive → List String
trustor_of (some (string s)) = if str_eq s "" then [] else s ∷ []
trustor_of other = []

abbrev pub is_some_text : Option String → String → Bool
is_some_text none s = false
is_some_text (some t) s = str_eq t s

-- `f"{event_type}:{force_perspective}"`
abbrev pub event_type_of : String → Option String → String
event_type_of operation none = operation
event_type_of operation (some view) =
    if str_eq view "" then operation else operation followed (":" followed view)

-- A step that may raise: whether it returned, and the state.
abbrev pub and_then : {S : Type 0} → Bool × S → (S → Bool × S) → Bool × S
and_then (true, s) next = next s
and_then (false, s) next = (false, s)
