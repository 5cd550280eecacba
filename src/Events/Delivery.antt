-- ===== src/Events/Delivery.antt =====
-- `send_notification` of bot/infrastructure/services/notification_service.py: what a delivery by
-- Telegram changes. Database errors are not modelled; the one of the reset is only logged.
use my_mtlwallet_bot.Prelude.{
  ℕ, String, ◌≡◌, refl, Bool, true, false, ◌&&◌, Option, none, some, List, [], ◌∷◌, ltb,
  if◌then◌else◌, Bool-cases, inl, inr,
}
use my_mtlwallet_bot.Notification.{Primitive, int, bool, BlockchainNotification}
use my_mtlwallet_bot.NotificationHistory.{
  History, Service, Delivered, recorded, value_error, field, add_delivered,
}
use my_mtlwallet_bot.Subscriptions.{elem}
use my_mtlwallet_bot.Wallets.Table.{
  Row, Table, select, amend, has_id, reset_balance_cache_by_wallet_id,
}
use my_mtlwallet_bot.Events.{is_notified}

-- How `cmd_info_message` ends.
pub data Telegram : Type 0 where
  accepted : Telegram
  forbidden : Telegram
  raised : Telegram

-- `isinstance(wallet_id, int) and wallet_id > 0`, where Python counts True as 1.
abbrev pub wallet_number : Option Primitive → Option ℕ
wallet_number (some (int n)) = if ltb 0 n then some n else none
wallet_number (some (bool b)) = if b then some 1 else none
wallet_number other = none

abbrev marked : Row → Row
marked r = record r { need_delete = 1 }

-- _mark_notification_wallet_deleted
unfoldable pub mark_notification_wallet_deleted : BlockchainNotification → Table → Table
mark_notification_wallet_deleted n t = elim (wallet_number (field "wallet_id" n.payload)) [
  | none ↦ t
  | some wallet_id ↦ record t { rows = amend (has_id wallet_id) marked t.rows }
]

module _ {Float : Type 0} (service : Service Float) (now created_at : ℕ) (fresh_id : String) where
  -- An error of the history is caught.
  abbrev history_after : Delivered (History Float) → History Float → History Float
  history_after (recorded h') h = h'
  history_after value_error h = h

  -- _after_notification_delivery
  unfoldable pub after_notification_delivery :
      BlockchainNotification → History Float × Table → History Float × Table
  after_notification_delivery n (h, t) =
      let h' = history_after (add_delivered service now created_at fresh_id n h) h in
      elim (wallet_number (field "wallet_id" n.payload)) [
        | none ↦ (h', t)
        | some wallet_id ↦ (h', (reset_balance_cache_by_wallet_id wallet_id t).1)
      ]

  -- send_notification: whether it returned. A user who blocked the bot counts as served.
  unfoldable pub send_notification :
      Telegram → BlockchainNotification → History Float × Table → Bool × (History Float × Table)
  send_notification accepted n s = (true, after_notification_delivery n s)
  send_notification forbidden n s = (true, (s.0, mark_notification_wallet_deleted n s.1))
  send_notification raised n s = (false, s)

-- The wallet of a user who blocked the bot is out of every later select.
none_notified :
    (accounts : List String) (wallet_id : ℕ) (rows : List Row)
    → select
        (λ r. has_id wallet_id r && is_notified accounts r)
        (amend (has_id wallet_id) marked rows)
      ≡ []
none_notified accounts wallet_id [] = refl
none_notified accounts wallet_id (r ∷ rows) = elim (Bool-cases (has_id wallet_id r)) [
  | inl t ↦ elim (Bool-cases (elem r.public_key accounts)) [
    | inl e ↦ rw (t, e, t) (none_notified accounts wallet_id rows)
    | inr e ↦ rw (t, e, t) (none_notified accounts wallet_id rows)
  ]
  | inr f ↦ rw (f, f) (none_notified accounts wallet_id rows)
]

-- After a delivery that Telegram forbids, the wallet that the event names is notified no more.
send_notification-forbidden :
    {Float : Type 0} (service : Service Float) (now created_at wallet_id : ℕ) (fresh_id : String)
    (n : BlockchainNotification) (s : History Float × Table) (accounts : List String)
    → wallet_number (field "wallet_id" n.payload) ≡ some wallet_id
    → select
        (λ r. has_id wallet_id r && is_notified accounts r)
        (send_notification service now created_at fresh_id forbidden n s).1.1.rows
      ≡ []
unfolding send_notification mark_notification_wallet_deleted
send_notification-forbidden service now created_at wallet_id fresh_id n s accounts e =
    rw (mark_notification_wallet_deleted, e) (none_notified accounts wallet_id s.1.rows)
