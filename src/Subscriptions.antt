-- ===== src/Subscriptions.antt =====
-- `sync_subscriptions` of bot/infrastructure/services/notification_service.py: the plan that brings
-- the notifier's subscriptions in line with the wallets, and its execution. The notifier is a record
-- of its two calls; an order of keys that Python leaves open is the order of their lists here.
pub mod Accounts
pub mod Plan
pub mod Removal
pub mod Synced
use Prim.Native.Char.{code}
use Prim.Native.String.{String}
use text.Mathlib.Text.{◌==◌ as str_eq}
use my_mtlwallet_bot.Prelude.{
  ℕ, zero, suc, ◌==◌, ◌≡◌, Bool, true, false, not, ◌||◌, ◌&&◌, Option, none, some, List, [], ◌∷◌,
  ◌++◌, map, ltb, if◌then◌else◌, length, take, drop,
}
use my_mtlwallet_bot.Wallets.Table.{Row, select}

pub record Subscription : Type 0 where
  pub subscription_id : String
  pub account : String
  pub reaction_url : String

abbrev pub elem : String → List String → Bool
elem s [] = false
elem s (t ∷ ts) = str_eq t s || elem s ts

abbrev pub of_account : String → List Subscription → List Subscription
of_account account [] = []
of_account account (sub ∷ subs) =
    if str_eq sub.account account then sub ∷ of_account account subs else of_account account subs

abbrev pub ids : List Subscription → List String
ids subs = map (λ (sub : Subscription). sub.subscription_id) subs

-- The keys of `subs_by_account`; what it holds of a key is `of_account`.
unfoldable pub subscribed_accounts : List Subscription → List String
subscribed_accounts [] = []
subscribed_accounts (sub ∷ subs) =
    let rest = subscribed_accounts subs in
    if elem sub.account rest then rest else sub.account ∷ rest

-- What the loop does about one account: the ids to delete, and whether to subscribe anew.
abbrev pub act_on : Bool → String → List Subscription → List String × Bool
act_on false webhook subs = (ids subs, false)
act_on true webhook [] = ([], false)
act_on true webhook (sub ∷ []) =
    if not (str_eq sub.reaction_url webhook) then (sub.subscription_id ∷ [], true) else ([], false)
act_on true webhook (sub ∷ other ∷ subs) = (ids (sub ∷ other ∷ subs), true)

module _ (db_keys : List String) (webhook : String) (all_subs : List Subscription) where
  abbrev pub action : String → List String × Bool
  action account = act_on (elem account db_keys) webhook (of_account account all_subs)

  -- Step 4: the subscriptions to delete, and the accounts among them to subscribe again.
  unfoldable pub to_delete : List String → List String
  to_delete [] = []
  to_delete (account ∷ accounts) = (action account).0 ++ to_delete accounts

  unfoldable pub to_resubscribe : List String → List String
  to_resubscribe [] = []
  to_resubscribe (account ∷ accounts) =
      let rest = to_resubscribe accounts in if (action account).1 then account ∷ rest else rest

  -- `for key in db_keys - subscribed_accounts: if key:`
  unfoldable pub not_subscribed : List String → List String
  not_subscribed [] = []
  not_subscribed (key ∷ keys) =
      let rest = not_subscribed keys in
      if not (elem key (subscribed_accounts all_subs)) && not (str_eq key "")
      then key ∷ rest
      else rest

  abbrev pub to_subscribe : List String
  to_subscribe = to_resubscribe (subscribed_accounts all_subs) ++ not_subscribed db_keys

-- `LIKE 'G%'`
abbrev pub starts_with_g : String → Bool
starts_with_g String.[] = false
starts_with_g (String.◌∷◌ c s) = code c == 71

-- The rows that the first statement selects, and `GROUP BY public_key`.
abbrev pub is_watched : Row → Bool
is_watched r = r.need_delete == 0 && (ltb 0 r.user_id && starts_with_g r.public_key)

abbrev pub watched_keys : List Row → List String
watched_keys rows = map (λ (r : Row). r.public_key) (select is_watched rows)

unfoldable pub distinct : List String → List String
distinct [] = []
distinct (key ∷ keys) = let rest = distinct keys in if elem key rest then rest else key ∷ rest

-- The notifier: its subscriptions as `_get_active_subscriptions` reads them, and its two calls. An
-- exception of a call is caught, so a call that fails is one that may change nothing.
pub record Notifier : Type 1 where
  pub State : Type 0
  pub subscriptions : State → List Subscription
  pub unsubscribe : String → State → State
  pub subscribe_batch : String → List String → State → State

abbrev pub batch_size : ℕ
batch_size = 5000

module _ (notifier : Notifier) where
  open notifier use {State, subscriptions}

  unfoldable pub unsubscribe_all : List String → State → State
  unsubscribe_all [] s = s
  unsubscribe_all (sub_id ∷ sub_ids) s = unsubscribe_all sub_ids (notifier.unsubscribe sub_id s)

  -- The batches of the last loop; a batch for each key is enough.
  unfoldable pub subscribe_batches : ℕ → String → List String → State → State
  subscribe_batches zero webhook keys s = s
  subscribe_batches (suc batches) webhook [] s = s
  subscribe_batches (suc batches) webhook (key ∷ keys) s =
      subscribe_batches batches webhook (drop batch_size (key ∷ keys))
        (notifier.subscribe_batch webhook (take batch_size (key ∷ keys)) s)

  unfoldable pub sync_keys : List String → String → State → State
  sync_keys db_keys webhook s =
      let subs = subscriptions s in
      let deleted = unsubscribe_all (to_delete db_keys webhook subs (subscribed_accounts subs)) s in
      let keys = to_subscribe db_keys webhook subs in
      subscribe_batches (length keys) webhook keys deleted

  -- Without an address nothing happens. Nothing to do is a plan of no calls.
  unfoldable pub sync_subscriptions : String → String → List Row → State → State
  sync_subscriptions notifier_url webhook rows s =
      if str_eq notifier_url "" then s else sync_keys (distinct (watched_keys rows)) webhook s
