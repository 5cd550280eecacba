-- ===== src/Events/Identity.antt =====
-- The events that `_send_notification_to_user` of
-- bot/infrastructure/services/notification_service.py makes, and the wallets it makes them for.
use text.Mathlib.Text.{◌==◌ as str_eq}
use my_mtlwallet_bot.Prelude.{
  ℕ, String, ◌≡◌, ◌⊎◌, refl, sym, ap, ◌∙◌, Bool, true, false, Option, none, some, List, [], ◌∷◌,
  eq_iff, Bool-cases, Option-cases, inl, inr,
}
use my_mtlwallet_bot.Notification.{
  string, BlockchainNotification, idempotency_key, idempotency_key_same,
}
use my_mtlwallet_bot.NotificationHistory.{field, text_or}
use my_mtlwallet_bot.Wallets.Table.{Row}
use my_mtlwallet_bot.Events.{
  Python, NotificationWallet, NotificationFilter, any, snapshot_wallet, is_notified, wallets_of,
  maker_of, event_type_of, and_then,
}
use my_mtlwallet_bot.Events.Webhook.{
  Operation, display_amount_value, suppresses, resolved_event_index, event_of, event_for,
}

abbrev pub Among : {A : Type 0} → A → List A → Type 0
Among a [] = ⊥
Among a (x ∷ xs) = (x ≡ a) ⊎ Among a xs

pub wallets_of-Among :
    (w : NotificationWallet) (accounts : List String) (rows : List Row)
    → Among w (wallets_of accounts rows)
    → (r : Row) × (Among r rows × ((is_notified accounts r ≡ true) × (snapshot_wallet r ≡ w)))
wallets_of-Among w accounts [] i = elim i [ ]
wallets_of-Among w accounts (r ∷ rows) i = elim (Bool-cases (is_notified accounts r)) [
  | inl t ↦
      let here : Among w (snapshot_wallet r ∷ wallets_of accounts rows) = rw t at i in
      elim here [
        | inl e ↦ (r, (inl refl, (t, e)))
        | inr j ↦
            let rest = wallets_of-Among w accounts rows j in (rest.0, (inr rest.1.0, rest.1.1))
      ]
  | inr f ↦
      let rest = wallets_of-Among w accounts rows (rw f at i) in (rest.0, (inr rest.1.0, rest.1.1))
]

pub maker_of-Among :
    (seller : String) (wallets : List NotificationWallet) (w : NotificationWallet)
    → maker_of seller wallets ≡ some w
    → Among w wallets
unfolding maker_of
maker_of-Among seller [] w e = cc
maker_of-Among seller (v ∷ wallets) w e = elim (Option-cases (maker_of seller wallets)) [
  | inl empty ↦ elim (Bool-cases (str_eq v.public_key seller)) [
    | inl t ↦ let g : some v ≡ some w = rw (empty, t) at e in inl (cc g)
    | inr f ↦ let g : none ≡ some w = rw (empty, f) at e in cc
  ]
  | inr (later, found) ↦
      let g : some later ≡ some w = rw found at e in
      inr (maker_of-Among seller wallets w (found ∙ g))
]

pub maker_of-key :
    (seller : String) (wallets : List NotificationWallet) (w : NotificationWallet)
    → maker_of seller wallets ≡ some w
    → w.public_key ≡ seller
unfolding maker_of
maker_of-key seller [] w e = cc
maker_of-key seller (v ∷ wallets) w e = elim (Option-cases (maker_of seller wallets)) [
  | inl empty ↦ elim (Bool-cases (str_eq v.public_key seller)) [
    | inl t ↦
        let g : some v ≡ some w = rw (empty, t) at e in
        let same : v ≡ w = cc g in
        sym (ap (λ (x : NotificationWallet). x.public_key) same) ∙ (eq_iff v.public_key seller).0 t
    | inr f ↦ let g : none ≡ some w = rw (empty, f) at e in cc
  ]
  | inr (later, found) ↦
      let g : some later ≡ some w = rw found at e in maker_of-key seller wallets w (found ∙ g)
]

pub and_then-kept :
    {S : Type 0} (P : S → Type 0) (r : Bool × S) (next : S → Bool × S)
    → P r.1
    → ((s : S) → P s → P (next s).1)
    → P (and_then r next).1
and_then-kept P (true, s) next p k = k s p
and_then-kept P (false, s) next p k = p

pub record IsMade (py : Python) (w : NotificationWallet) (op : Operation py) (view : Option String)
    (own : List (NotificationFilter py.Float)) (index : Option ℕ) (n : BlockchainNotification)
    : Type 0 where
  pub unfiltered : any (suppresses py w op) own ≡ false
  pub by_index : resolved_event_index py op index ≡ some n.event_index
  pub by_user : n.user_id ≡ w.user_id
  pub by_type : n.event_type ≡ event_type_of op.operation view
  pub by_key : field "public_key" n.payload ≡ some (string w.public_key)
  pub by_amount : field "amount" n.payload ≡ some (string (py.shown (display_amount_value py op)))
  pub by_hash : n.transaction_hash ≡ text_or "" op.transaction_hash

module _ (py : Python) {S : Type 0}
    (decode : Operation py → String → ℕ → Option String → Option String)
    (accept : BlockchainNotification → S → Bool × S) where
  -- What an event that is made shows of its making.
  pub event_for-IsMade :
      (w : NotificationWallet) (op : Operation py) (view : Option String)
      (own : List (NotificationFilter py.Float)) (index : Option ℕ) (n : BlockchainNotification)
      → event_for py decode accept w op view own index ≡ some n
      → IsMade py w op view own index n
  unfolding event_for event_of field
  event_for-IsMade w op view own index n e =
      elim (Bool-cases (str_eq (text_or "" (decode op w.public_key w.user_id view)) "")) [
        | inl t ↦ let g : none ≡ some n = rw t at e in cc
        | inr written ↦ elim (Bool-cases (any (suppresses py w op) own)) [
          | inl t ↦ let g : none ≡ some n = rw (written, t) at e in cc
          | inr free ↦ elim (Bool-cases (str_eq (text_or "" op.transaction_hash) "")) [
            | inl t ↦ let g : none ≡ some n = rw (written, free, t) at e in cc
            | inr hashed ↦ elim (Option-cases (resolved_event_index py op index)) [
              | inl lost ↦ let g : none ≡ some n = rw (written, free, hashed, lost) at e in cc
              | inr (k, found) ↦
                  let message = text_or "" (decode op w.public_key w.user_id view) in
                  let g : some (event_of py w op view message k) ≡ some n =
                    rw (written, free, hashed, found) at e in
                  let made : n ≡ event_of py w op view message k = cc g in
                  record {
                    unfiltered = free;
                    by_index =
                        found
                        ∙ ap some (sym (ap (λ (x : BlockchainNotification). x.event_index) made));
                    by_user = ap (λ (x : BlockchainNotification). x.user_id) made;
                    by_type = ap (λ (x : BlockchainNotification). x.event_type) made;
                    by_key = ap (λ (x : BlockchainNotification). field "public_key" x.payload) made;
                    by_amount = ap (λ (x : BlockchainNotification). field "amount" x.payload) made;
                    by_hash = ap (λ (x : BlockchainNotification). x.transaction_hash) made;
                  }
            ]
          ]
        ]
      ]

  -- The events of one operation for two wallets of one user, under the same perspective and
  -- filters, have the same idempotency key, whichever accounts the wallets are and whatever their
  -- texts say.
  pub own_wallets-same_key :
      (v w : NotificationWallet) (op : Operation py) (view : Option String)
      (own : List (NotificationFilter py.Float)) (index : Option ℕ) (m n : BlockchainNotification)
      → v.user_id ≡ w.user_id
      → event_for py decode accept v op view own index ≡ some m
      → event_for py decode accept w op view own index ≡ some n
      → idempotency_key m ≡ idempotency_key n
  own_wallets-same_key v w op view own index m n same d e =
      let a = event_for-IsMade v op view own index m d in
      let b = event_for-IsMade w op view own index n e in
      let indices : m.event_index ≡ n.event_index = cc (a.by_index, b.by_index) in
      let users : m.user_id ≡ n.user_id = a.by_user ∙ same ∙ sym b.by_user in
      let types : m.event_type ≡ n.event_type = a.by_type ∙ sym b.by_type in
      let hashes : m.transaction_hash ≡ n.transaction_hash = a.by_hash ∙ sym b.by_hash in
      idempotency_key_same m n hashes types indices users
