-- ===== src/NotificationHistory.antt =====
-- bot/infrastructure/services/notification_history_service.py: the recent notifications of each
-- user, in memory. The clock, the fresh ids and Python's `float` are arguments.
pub mod Recent
pub mod Bounded
use text.Mathlib.Text.{◌==◌ as str_eq}
use my_mtlwallet_bot.Prelude.{
  ℕ, ◌+◌, String, Bool, true, false, ◌||◌, not, Option, none, some, List, [], ◌∷◌, ltb, leb, ◌==◌,
  if◌then◌else◌, take, map,
}
use my_mtlwallet_bot.Prelude.Dict
use my_mtlwallet_bot.Prelude.Dict.{Dict}
use my_mtlwallet_bot.Notification.{
  Primitive, string, int, float, bool, null, BlockchainNotification,
}

pub record NotificationRecord (Float : Type 0) : Type 0 where
  pub record_id : String
  pub operation_type : String
  pub asset_code : String
  pub amount : Float
  pub wallet_id : ℕ
  pub public_key : String
  pub notification_id : Option String
  pub created_at : ℕ

-- What `add` reads of a NotificationOperation.
pub record NotificationOperation : Type 0 where
  pub operation : String
  pub display_asset_code : Option String
  pub display_amount_value : Primitive

pub data Delivered (S : Type 0) : Type 0 where
  recorded : S → Delivered S
  value_error : Delivered S

-- `text or default`
abbrev pub text_or : String → Option String → String
text_or default none = default
text_or default (some s) = if str_eq s "" then default else s

-- What `or` passes over.
abbrev pub is_falsy : Primitive → Bool
is_falsy (string s) = str_eq s ""
is_falsy (int n) = n == 0
is_falsy (float shown) = str_eq shown "0.0" || str_eq shown "-0.0"
is_falsy (bool b) = not b
is_falsy null = true

-- `str(value or default)`, with Python's `str` as an argument
unfoldable pub shown_or : (Primitive → String) → String → Option Primitive → String
shown_or shown default none = default
shown_or shown default (some value) = if is_falsy value then default else shown value

-- `data.get(name)`
unfoldable pub field : String → List (String × Primitive) → Option Primitive
field name [] = none
field name ((key, value) ∷ data_) = if str_eq key name then some value else field name data_

abbrev pub History : Type 0 → Type 0
History Float = Dict (List (NotificationRecord Float))

module _ {Float : Type 0} where
  abbrev pub listed : Option (List (NotificationRecord Float)) → List (NotificationRecord Float)
  listed none = []
  listed (some records) = records

  -- `self._history.get(user_id, [])`
  abbrev pub records_of : ℕ → History Float → List (NotificationRecord Float)
  records_of user h = listed (Dict.get user h)

  -- `created_at > now - ttl`
  abbrev pub is_recent : ℕ → ℕ → NotificationRecord Float → Bool
  is_recent ttl now x = ltb now (x.created_at + ttl)

  unfoldable pub keep_recent :
      ℕ → ℕ → List (NotificationRecord Float) → List (NotificationRecord Float)
  keep_recent ttl now [] = []
  keep_recent ttl now (x ∷ xs) =
      let rest = keep_recent ttl now xs in if is_recent ttl now x then x ∷ rest else rest

  -- Empty lists are removed.
  abbrev pub store_kept : ℕ → List (NotificationRecord Float) → History Float → History Float
  store_kept user [] h = Dict.del user h
  store_kept user (x ∷ xs) h = Dict.put user (x ∷ xs) h

  -- _cleanup_user
  unfoldable pub cleanup_user : ℕ → ℕ → ℕ → History Float → History Float
  cleanup_user ttl now user h = elim (Dict.get user h) [
    | none ↦ h
    | some records ↦ store_kept user (keep_recent ttl now records) h
  ]

  -- The insertion in front and the cut, which both ways of adding share.
  unfoldable pub push : ℕ → ℕ → NotificationRecord Float → History Float → History Float
  push max_per_user user x h = Dict.put user (take max_per_user (x ∷ records_of user h)) h

  abbrev pub has_id : String → NotificationRecord Float → Bool
  has_id wanted x = elim x.notification_id [ none ↦ false | some s ↦ str_eq s wanted ]

  unfoldable pub is_recorded : String → List (NotificationRecord Float) → Bool
  is_recorded wanted [] = false
  is_recorded wanted (x ∷ xs) = has_id wanted x || is_recorded wanted xs

  -- get_recent: the answer, and the history that the access cleaned
  unfoldable pub get_recent :
      ℕ → ℕ → ℕ → ℕ → History Float → List (NotificationRecord Float) × History Float
  get_recent ttl now user limit h =
      let kept = cleanup_user ttl now user h in (take limit (records_of user kept), kept)

  find_id : String → List (NotificationRecord Float) → Option (NotificationRecord Float)
  find_id wanted [] = none
  find_id wanted (x ∷ xs) = if str_eq x.record_id wanted then some x else find_id wanted xs

  -- get_by_id
  unfoldable pub get_by_id :
      ℕ → ℕ → ℕ → String → History Float → Option (NotificationRecord Float) × History Float
  unfolding find_id
  get_by_id ttl now user wanted h =
      let kept = cleanup_user ttl now user h in (find_id wanted (records_of user kept), kept)

  unfoldable pub cleanup_users : ℕ → ℕ → List ℕ → History Float → History Float
  cleanup_users ttl now [] h = h
  cleanup_users ttl now (user ∷ users) h = cleanup_users ttl now users (cleanup_user ttl now user h)

  -- cleanup
  unfoldable pub cleanup : ℕ → ℕ → History Float → History Float
  unfolding cleanup_users
  cleanup ttl now h = cleanup_users ttl now (map (λ entry. entry.0) h) h

  float_or : Float → Option Float → Float
  float_or zero_float none = zero_float
  float_or zero_float (some x) = x

  -- `float(value or 0)`, where a value that `float` refuses counts as 0.0
  unfoldable pub amount_of : (Primitive → Option Float) → Float → Option Primitive → Float
  unfolding float_or
  amount_of to_float zero_float none = zero_float
  amount_of to_float zero_float (some value) =
      if is_falsy value then zero_float else float_or zero_float (to_float value)

-- `isinstance(value, int)`: a Boolean is an int
wallet_of : Option Primitive → Option ℕ
wallet_of (some (int n)) = some n
wallet_of (some (bool b)) = some (if b then 1 else 0)
wallet_of _ = none

public_key_of : Option Primitive → Option String
public_key_of (some (string s)) = some s
public_key_of _ = none

-- The service's settings, and what it takes from Python.
pub record Service (Float : Type 0) : Type 0 where
  pub ttl : ℕ
  pub max_per_user : ℕ
  pub zero_float : Float
  pub to_float : Primitive → Option Float
  pub shown : Primitive → String

-- `now` is the clock of the clean-up, `created_at` that of the new record.
module _ {Float : Type 0} (service : Service Float) (now created_at : ℕ) (fresh_id : String) where
  -- add
  unfoldable pub add : ℕ → NotificationOperation → ℕ → String → History Float → History Float
  unfolding amount_of
  add user operation wallet_id public_key h =
      push service.max_per_user user
        (record {
          record_id = fresh_id;
          operation_type = operation.operation;
          asset_code = text_or "XLM" operation.display_asset_code;
          amount =
              amount_of service.to_float service.zero_float (some operation.display_amount_value);
          wallet_id = wallet_id;
          public_key = public_key;
          notification_id = none;
          created_at = created_at;
        })
        (cleanup_user service.ttl now user h)

  unfoldable pub delivered_record : BlockchainNotification → ℕ → String → NotificationRecord Float
  unfolding amount_of
  delivered_record n wallet_id public_key = record {
    record_id = fresh_id;
    operation_type = shown_or service.shown n.event_type (field "operation_type" n.payload);
    asset_code = shown_or service.shown "XLM" (field "asset_code" n.payload);
    amount = amount_of service.to_float service.zero_float (field "amount" n.payload);
    wallet_id = wallet_id;
    public_key = public_key;
    notification_id = some n.notification_id;
    created_at = created_at;
  }

  -- What follows the checks of `add_delivered`, with the wallet's number and key.
  unfoldable pub record_delivered :
      BlockchainNotification → ℕ → String → History Float → History Float
  record_delivered n wallet_id public_key h =
      let kept = cleanup_user service.ttl now n.user_id h in
      if is_recorded n.notification_id (records_of n.user_id kept)
      then kept
      else push service.max_per_user n.user_id (delivered_record n wallet_id public_key) kept

  -- add_delivered
  unfoldable pub add_delivered : BlockchainNotification → History Float → Delivered (History Float)
  unfolding wallet_of public_key_of
  add_delivered n h = elim (wallet_of (field "wallet_id" n.payload)) [
    | none ↦ value_error
    | some wallet_id ↦ elim (public_key_of (field "public_key" n.payload)) [
      | none ↦ value_error
      | some public_key ↦ recorded (record_delivered n wallet_id public_key h)
    ]
  ]
