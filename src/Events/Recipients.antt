-- ===== src/Events/Recipients.antt =====
-- Whom `process_notification` of bot/infrastructure/services/notification_service.py reaches.
use text.Mathlib.Text.{◌==◌ as str_eq}
use my_mtlwallet_bot.Prelude.{
  ℕ, ◌+◌, String, ◌≡◌, ◌⊎◌, refl, sym, ap, ◌∙◌, subst, eq_iff, Bool, true, Option, none, some, List,
  [], ◌∷◌, if◌then◌else◌, Bool-cases, Option-cases, List-cases, inl, inr,
}
use my_mtlwallet_bot.Notification.{BlockchainNotification, string}
use my_mtlwallet_bot.Wallets.Table.{Row}
use my_mtlwallet_bot.Events.{
  Python, NotificationWallet, NotificationFilter, Trade, Payload, get_trade_asset, wallets_of,
  maker_of, event_index_from_payload,
}
use my_mtlwallet_bot.Events.Webhook.{
  Operation, display_asset_code, display_amount_value, filters_of, event_for, hand_over,
  send_notification_to_user, is_self_payment, notify_wallets, is_order_book, makers_of,
  trade_operation, notify_seller, notify_makers, process_trades, involved_accounts, has_resource,
  process_notification,
}
use my_mtlwallet_bot.Subscriptions.{elem}
use my_mtlwallet_bot.Events.Meant.{IsFor, IsNamed, Silences, unheard, elem-IsNamed, notified-alive}
use my_mtlwallet_bot.Events.Identity.{
  Among, wallets_of-Among, maker_of-Among, maker_of-key, and_then-kept, event_for-IsMade,
}

module _ (py : Python) {S : Type 0}
    (decode : Operation py → String → ℕ → Option String → Option String)
    (accept : BlockchainNotification → S → Bool × S) where
  module _ (rows : List Row) (filters : List (NotificationFilter py.Float))
      (payload : Payload py.Float) where
    -- The operation is for the accounts that it names, an order book trade for its own seller.
    abbrev pub IsMeant : Operation py → BlockchainNotification → Type 0
    IsMeant op n =
        IsFor py rows filters (IsNamed py op payload) op.operation (display_asset_code py op)
          (display_amount_value py op) n
        ⊎ ((trade : Trade py.Float) × (Among trade payload.trades
              × ((trade.trade_type ≡ "order_book")
                  × IsFor py rows filters (λ key. trade.seller_id ≡ some key) "trade"
                      (get_trade_asset trade.bought) trade.amount_bought n)))

    module _ (now : ℕ) (op : Operation py) (P : S → Type 0)
        (kept : (n : BlockchainNotification) (s : S) → IsMeant op n → P s → P (accept n s).1) where
      hand_over-kept :
          (event : Option BlockchainNotification) (s : S)
          → ((n : BlockchainNotification) → event ≡ some n → IsMeant op n)
          → P s
          → P (hand_over py decode accept event s).1
      unfolding hand_over
      hand_over-kept none s meant p = p
      hand_over-kept (some n) s meant p = elim (Bool-cases (str_eq n.event_type "")) [
        | inl t ↦ rw t p
        | inr f ↦ rw f (kept n s (meant n refl) p)
      ]

      concerned :
          (accounts : List String) (own_op : Operation py) (w : NotificationWallet)
          (view : Option String) (index : Option ℕ) (n : BlockchainNotification)
          (IsKey : String → Type 0)
          → Among w (wallets_of accounts rows)
          → (elem w.public_key accounts ≡ true → IsKey w.public_key)
          → event_for py decode accept w own_op view (filters_of py w.user_id filters) index
            ≡ some n
          → IsFor py rows filters IsKey own_op.operation
              (display_asset_code py own_op)
              (display_amount_value py own_op)
              n
      concerned accounts own_op w view index n IsKey i keyed e =
          let (r, (among, (active, same))) = wallets_of-Among w accounts rows i in
          let (alive, (owned, listed)) = notified-alive py accounts r active in
          let made =
            event_for-IsMade py decode accept w own_op view (filters_of py w.user_id filters) index
              n e in
          let key : w.public_key ≡ r.public_key =
            sym (ap (λ (x : NotificationWallet). x.public_key) same) in
          let user : w.user_id ≡ r.user_id =
            sym (ap (λ (x : NotificationWallet). x.user_id) same) in
          record {
            row = r;
            listed = among;
            alive = alive;
            owned = owned;
            keyed = subst IsKey key (keyed (subst (λ k. elem k accounts ≡ true) (sym key) listed));
            user = made.by_user ∙ user;
            shows_key = made.by_key ∙ ap (λ k. some (string k)) key;
            shows_amount = made.by_amount;
            heard = λ f i own h. unheard py w own_op filters f made.unfiltered i (own ∙ sym user) (
                subst
                  (λ k.
                    Silences py k own_op.operation (display_asset_code py own_op)
                      (display_amount_value py own_op) f)
                  (sym key) h);
          }

      notify_wallets-kept :
          (wallets : List NotificationWallet) (s : S)
          → ((w : NotificationWallet)
              → Among w wallets
              → Among w
                  (wallets_of (involved_accounts py decode accept rows filters payload op) rows))
          → P s
          → P (notify_wallets py decode accept rows filters payload op wallets s).1
      unfolding notify_wallets
      notify_wallets-kept [] s among p = p
      notify_wallets-kept (w ∷ wallets) s among p =
          let accounts = involved_accounts py decode accept rows filters payload op in
          let own = filters_of py w.user_id filters in
          let index = event_index_from_payload py.decimal payload.info 0 in
          let send = λ (view : Option String) (s₁ : S) (p₁ : P s₁).
            hand_over-kept (event_for py decode accept w op view own index) s₁
              (λ n e. inl (
                concerned accounts op w view index n (IsNamed py op payload) (among w (inl refl))
                  (elem-IsNamed py op payload w.public_key) e))
              p₁ in
          and_then-kept P (send_notification_to_user py decode accept w op none own index s) _
            (send none s p)
            (λ s₁ p₁.
              and_then-kept P
                (if is_self_payment py decode accept rows filters payload w op
                  then send_notification_to_user py decode accept w op (some "debit") own index s₁
                  else (true, s₁))
                (λ s₂. notify_wallets py decode accept rows filters payload op wallets s₂)
                (elim (Bool-cases (is_self_payment py decode accept rows filters payload w op)) [
                  | inl t ↦ rw t (send (some "debit") s₁ p₁)
                  | inr f ↦ rw f p₁
                ])
                (λ s₂ p₂. notify_wallets-kept wallets s₂ (λ v i. among v (inr i)) p₂))

      -- What the operation made of a trade shows.
      trade_IsFor :
          (i : ℕ) (key : String) (trade : Trade py.Float) (n : BlockchainNotification)
          → let own_op = trade_operation py decode accept rows filters payload now i key trade in
            IsFor py rows filters
              (λ k. trade.seller_id ≡ some k)
              own_op.operation
              (display_asset_code py own_op)
              (display_amount_value py own_op)
              n
            → IsFor py rows filters
                (λ k. trade.seller_id ≡ some k)
                "trade"
                (get_trade_asset trade.bought)
                trade.amount_bought
                n
      unfolding trade_operation display_asset_code display_amount_value
      trade_IsFor i key trade n x = x

      notify_makers-kept :
          (i : ℕ) (makers : List NotificationWallet) (trades : List (Trade py.Float)) (s : S)
          → ((w : NotificationWallet)
              → Among w makers
              → Among w (
                  wallets_of (makers_of py decode accept rows filters payload payload.trades) rows))
          → ((t : Trade py.Float) → Among t trades → Among t payload.trades)
          → P s
          → P (notify_makers py decode accept rows filters payload now i makers trades s).1
      unfolding notify_makers
      notify_makers-kept i makers [] s among inside p = p
      notify_makers-kept i makers (trade ∷ trades) s among inside p =
          let accounts = makers_of py decode accept rows filters payload payload.trades in
          let go : is_order_book py decode accept rows filters payload trade ≡ true
              → P
                  (notify_seller py decode accept rows filters payload now i makers trade
                    trade.seller_id s).1 =
            λ book. (elim (Option-cases trade.seller_id) [
              | inl none_named ↦ rw (none_named, notify_seller) p
              | inr (key, named) ↦ elim (Option-cases (maker_of key makers)) [
                | inl empty ↦ rw (named, notify_seller, empty) p
                | inr (w, found) ↦
                    let own_op =
                      trade_operation py decode accept rows filters payload now i key trade in
                    let index = event_index_from_payload py.decimal payload.info (i + 1) in
                    rw (named, notify_seller, found)
                      (hand_over-kept
                        (event_for py decode accept w own_op none (filters_of py w.user_id filters)
                          index)
                        s
                        (λ n e. inr (
                          trade,
                          (
                            inside trade (inl refl),
                            (
                              (eq_iff trade.trade_type "order_book").0 book,
                              trade_IsFor i key trade n (
                                  concerned accounts own_op w none index n
                                    (λ k. trade.seller_id ≡ some k)
                                    (among w (maker_of-Among key makers w found))
                                    (λ t. named ∙ ap some (sym (maker_of-key key makers w found)))
                                    e),
                            ),
                          ),
                        ))
                        p)
              ]
            ]) in
          and_then-kept P
            (if is_order_book py decode accept rows filters payload trade
              then notify_seller py decode accept rows filters payload now i makers trade
                  trade.seller_id s
              else (true, s))
            (λ s₁. notify_makers py decode accept rows filters payload now (i + 1) makers trades s₁)
            (elim (Bool-cases (is_order_book py decode accept rows filters payload trade)) [
              | inl t ↦ rw t (go t)
              | inr f ↦ rw f p
            ])
            (λ s₁ p₁.
              notify_makers-kept (i + 1) makers trades s₁ among (λ t j. inside t (inr j)) p₁)

      process_trades-kept :
          (s : S) → P s → P (process_trades py decode accept rows filters payload now s).1
      unfolding process_trades
      process_trades-kept s p =
          elim (List-cases (makers_of py decode accept rows filters payload payload.trades)) [
            | inl e ↦ rw (process_trades, e) p
            | inr (seller, sellers, e) ↦
                rw (process_trades, e)
                  (notify_makers-kept 0 (wallets_of (seller ∷ sellers) rows) payload.trades s
                    (λ w i. subst (λ l. Among w (wallets_of l rows)) (sym e) i) (λ t i. i) p)
          ]

      -- Every property of the shared state that accepting an event keeps, whenever the event is
      -- meant for its user, is kept by process_notification: nothing else is handed over. Meant
      -- are two kinds: an event that shows the operation's amount and the key of a wallet that
      -- the operation names as receiver, sender or trustor, and one that shows the bought amount
      -- of an order book trade of the payload and the key of that trade's own seller. The wallet
      -- is the user's and is not deleted, and no filter of the user asks, for this kind of
      -- operation, and for this wallet and asset or for any, for more than the amount.
      pub process_notification-kept :
          (s : S)
          → P s
          → P (process_notification py decode accept rows filters payload now (some op) s).1
      unfolding process_notification
      process_notification-kept s p =
          let accounts = involved_accounts py decode accept rows filters payload op in
          elim (Bool-cases (has_resource py decode accept rows filters payload)) [
            | inr f ↦ rw f p
            | inl t ↦ elim (List-cases accounts) [
              | inl e ↦ rw (t, e) p
              | inr (account, more, e) ↦
                  rw (t, e)
                    (and_then-kept P
                      (notify_wallets py decode accept rows filters payload op
                        (wallets_of (account ∷ more) rows) s)
                      (λ s₁. process_trades py decode accept rows filters payload now s₁)
                      (notify_wallets-kept (wallets_of (account ∷ more) rows) s
                        (λ w i. subst (λ l. Among w (wallets_of l rows)) (sym e) i) p)
                      (λ s₁ p₁. process_trades-kept s₁ p₁))
            ]
          ]
