-- ===== src/Events/Webhook.antt =====
-- `process_notification` and `_send_notification_to_user` of
-- bot/infrastructure/services/notification_service.py. The coordinator's `accept` is a step that
-- may raise; its state stands for all that is shared.
use Prim.Native.String.{◌++◌ as ◌followed◌}
use text.Mathlib.Text.{◌==◌ as str_eq}
use my_mtlwallet_bot.Prelude.{
  ℕ, ◌+◌, String, Bool, true, false, not, ◌||◌, ◌&&◌, Option, none, some, List, [], ◌∷◌, ◌++◌, ◌==◌,
  if◌then◌else◌,
}
use my_mtlwallet_bot.Notification.{string, int, BlockchainNotification, str}
use my_mtlwallet_bot.NotificationHistory.{text_or, field}
use my_mtlwallet_bot.Wallets.Table.{Row, select}
use my_mtlwallet_bot.Events.{
  Python, NotificationOperation, NotificationWallet, NotificationFilter, Trade, Payload,
  is_path_payment, is_offer, any, unset_or, is_truthy, get_trade_asset, event_index_from_payload,
  wallets_of, maker_of, known_seller, optional, trustor_of, is_some_text, event_type_of, and_then,
}

module _ (py : Python) where
  abbrev pub Operation : Type 0
  Operation = NotificationOperation py.Float

  unfoldable pub display_amount_value : Operation → py.Float
  display_amount_value op =
      if str_eq op.operation "payment"
      then op.payment_amount
      else if str_eq op.operation "create_account"
      then op.payment_amount
      else if is_path_payment op.operation
      then op.path_received_amount
      else if str_eq op.operation "trade"
      then op.trade_bought_amount
      else if is_offer op.operation
      then op.offer_amount
      else py.zero

  unfoldable pub display_asset_code : Operation → String
  display_asset_code op =
      if str_eq op.operation "payment"
      then op.payment_asset
      else if str_eq op.operation "create_account"
      then op.payment_asset
      else if is_path_payment op.operation
      then op.path_received_asset
      else if str_eq op.operation "trade"
      then op.trade_bought_asset
      else if is_offer op.operation
      then op.offer_buying_asset
      else if str_eq op.operation "manage_data"
      then text_or "DATA" op.data_name
      else "XLM"

  -- The test of one filter.
  abbrev pub suppresses : NotificationWallet → Operation → NotificationFilter py.Float → Bool
  suppresses w op f =
      unset_or f.public_key w.public_key
      && (unset_or f.asset_code (display_asset_code op)
          && (py.less (display_amount_value op) f.min_amount
              && str_eq f.operation_type op.operation))

  abbrev pub is_filter_of : ℕ → NotificationFilter py.Float → Bool
  is_filter_of user f = f.user_id == user

  -- `_load_filters_by_user`, at one user.
  abbrev pub filters_of :
      ℕ → List (NotificationFilter py.Float) → List (NotificationFilter py.Float)
  filters_of user filters = select (is_filter_of user) filters

  -- `if event_index is None`: the operation's own id, if it is a number.
  abbrev pub resolved_event_index : Operation → Option ℕ → Option ℕ
  resolved_event_index op none = py.decimal op.op_id
  resolved_event_index op (some n) = some n

  -- The event as it is handed over.
  unfoldable pub event_of :
      NotificationWallet → Operation → Option String → String → ℕ → BlockchainNotification
  event_of w op view message index =
      let event_type = event_type_of op.operation view in
      let hash = text_or "" op.transaction_hash in
      record {
        notification_id =
            hash
            followed (":"
                followed (event_type
                    followed (":" followed (str index followed (":" followed str w.user_id)))));
        user_id = w.user_id;
        event_type = event_type;
        message = message;
        created_at = op.dt;
        transaction_hash = hash;
        event_index = index;
        payload =
            ("wallet_id", int w.wallet_id)
            ∷ ("public_key", string w.public_key)
            ∷ ("operation_id", string op.op_id)
            ∷ ("operation_type", string op.operation)
            ∷ ("asset_code", string (display_asset_code op))
            ∷ ("amount", string (py.shown (display_amount_value op)))
            ∷ [];
      }

  module _ {S : Type 0} (decode_db_effect : Operation → String → ℕ → Option String → Option String)
      (accept : BlockchainNotification → S → Bool × S) where
    -- _send_notification_to_user up to the coordinator: no event where the text is missing or
    -- raises, a filter holds, or the identity is incomplete
    unfoldable pub event_for :
        NotificationWallet
        → Operation
        → Option String
        → List (NotificationFilter py.Float)
        → Option ℕ
        → Option BlockchainNotification
    event_for w op view user_filters event_index =
        let message = text_or "" (decode_db_effect op w.public_key w.user_id view) in
        if str_eq message ""
        then none
        else if any (suppresses w op) user_filters
        then none
        else if str_eq (text_or "" op.transaction_hash) ""
        then none
        else elim (resolved_event_index op event_index) [
          | none ↦ none
          | some index ↦ some (event_of w op view message index)
        ]

    -- The rest of it. An event without a type is refused by its constructor.
    unfoldable pub hand_over : Option BlockchainNotification → S → Bool × S
    hand_over none s = (true, s)
    hand_over (some n) s = if str_eq n.event_type "" then (false, s) else accept n s

    abbrev pub send_notification_to_user :
        NotificationWallet
        → Operation
        → Option String
        → List (NotificationFilter py.Float)
        → Option ℕ
        → S
        → Bool × S
    send_notification_to_user w op view user_filters event_index s =
        hand_over (event_for w op view user_filters event_index) s

    module _ (rows : List Row) (filters : List (NotificationFilter py.Float))
        (payload : Payload py.Float) where
      abbrev pub is_self_payment : NotificationWallet → Operation → Bool
      is_self_payment w op =
          str_eq op.operation "payment"
          && (is_some_text op.from_account w.public_key && is_some_text op.for_account w.public_key)

      -- `for wallet in wallets`
      unfoldable pub notify_wallets : Operation → List NotificationWallet → S → Bool × S
      notify_wallets op [] s = (true, s)
      notify_wallets op (w ∷ wallets) s =
          let own = filters_of w.user_id filters in
          let index = event_index_from_payload py.decimal payload.info 0 in
          and_then (send_notification_to_user w op none own index s) (λ s₁.
            and_then
              (if is_self_payment w op
                then send_notification_to_user w op (some "debit") own index s₁
                else (true, s₁))
              (λ s₂. notify_wallets op wallets s₂))

      abbrev pub is_order_book : Trade py.Float → Bool
      is_order_book trade = str_eq trade.trade_type "order_book"

      abbrev pub makers_of : List (Trade py.Float) → List String
      makers_of [] = []
      makers_of (trade ∷ trades) =
          let rest = makers_of trades in
          if is_order_book trade then known_seller trade.seller_id ++ rest else rest

      -- The operation that a maker is told of.
      unfoldable pub trade_operation : ℕ → ℕ → String → Trade py.Float → Operation
      trade_operation now i seller trade =
          let hash = text_or "" payload.transaction_hash in
          let id = field "id" payload.info in
          let stellar_op_id =
            if not (is_truthy id) && not (str_eq hash "")
            then hash followed ("_" followed str i)
            else py.show id in
          record {
            op_id = stellar_op_id followed ("_t" followed str i);
            operation = "trade";
            dt = now;
            from_account = some seller;
            for_account = some seller;
            payment_amount = py.zero;
            payment_asset = "XLM";
            path_received_amount = py.zero;
            path_received_asset = "XLM";
            trade_bought_amount = trade.amount_bought;
            trade_bought_asset = get_trade_asset trade.bought;
            trade_sold_amount = trade.amount_sold;
            trade_sold_asset = get_trade_asset trade.sold;
            offer_amount = py.zero;
            offer_buying_asset = "XLM";
            data_name = none;
            transaction_hash = some hash;
          }

      abbrev pub notify_seller :
          ℕ → ℕ → List NotificationWallet → Trade py.Float → Option String → S → Bool × S
      notify_seller now i makers trade none s = (true, s)
      notify_seller now i makers trade (some seller) s = elim (maker_of seller makers) [
        | none ↦ (true, s)
        | some w ↦
            send_notification_to_user w (trade_operation now i seller trade) none
              (filters_of w.user_id filters)
              (event_index_from_payload py.decimal payload.info (i + 1)) s
      ]

      -- `for i, trade in enumerate(trades)`
      unfoldable pub notify_makers :
          ℕ → ℕ → List NotificationWallet → List (Trade py.Float) → S → Bool × S
      notify_makers now i makers [] s = (true, s)
      notify_makers now i makers (trade ∷ trades) s =
          and_then
            (if is_order_book trade
              then notify_seller now i makers trade trade.seller_id s
              else (true, s))
            (λ s₁. notify_makers now (i + 1) makers trades s₁)

      -- Without a maker `maker_map` is not bound: the first look at it raises.
      unfoldable pub process_trades : ℕ → S → Bool × S
      process_trades now s = elim (makers_of payload.trades) [
        | [] ↦ (not (any is_order_book payload.trades), s)
        | seller ∷ sellers ↦
            notify_makers now 0 (wallets_of (seller ∷ sellers) rows) payload.trades s
      ]

      abbrev pub involved_accounts : Operation → List String
      involved_accounts op =
          optional op.for_account
          ++ (optional op.from_account ++ trustor_of (field "trustor" payload.info))

      abbrev pub has_resource : Bool
      has_resource =
          not (str_eq (text_or "" payload.subscription) "")
          || (is_truthy (field "account" payload.info)
              || (is_truthy (field "source_account" payload.info)
                  || (is_truthy (field "to" payload.info)
                      || is_truthy (field "destination" payload.info))))

      -- process_notification; `op` is what the payload is mapped to.
      unfoldable pub process_notification : ℕ → Option Operation → S → Bool × S
      process_notification now mapped s = if not has_resource then (true, s) else elim mapped [
        | none ↦ (true, s)
        | some op ↦ elim (involved_accounts op) [
          | [] ↦ (true, s)
          | account ∷ accounts ↦
              and_then (notify_wallets op (wallets_of (account ∷ accounts) rows) s)
                (λ s₁. process_trades now s₁)
        ]
      ]
