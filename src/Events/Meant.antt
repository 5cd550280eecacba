-- ===== src/Events/Meant.antt =====
-- Whom an event may be for, in terms of the tables: the wallets, the filters and the payload.
use text.Mathlib.Text.{◌==◌ as str_eq}
use my_mtlwallet_bot.Prelude.{
  ℕ, ◌<◌, String, ◌≡◌, ◌⊎◌, refl, sym, ap, ◌∙◌, subst, true, false, ◌||◌, Option, none, some, List,
  [], ◌∷◌, ◌++◌, arith, ◌==◌, ==_iff, eq_iff, Bool-cases, inl, inr,
}
use my_mtlwallet_bot.Notification.{
  Primitive, string, int, float, bool, null, BlockchainNotification,
}
use my_mtlwallet_bot.NotificationHistory.{field}
use my_mtlwallet_bot.Subscriptions.{elem}
use my_mtlwallet_bot.Subscriptions.Accounts.{elem-append}
use my_mtlwallet_bot.Wallets.Table.{Row}
use my_mtlwallet_bot.Events.{
  Python, NotificationWallet, NotificationFilter, Payload, any, is_notified, unset_or, optional,
  trustor_of,
}
use my_mtlwallet_bot.Events.Webhook.{
  Operation, display_amount_value, display_asset_code, suppresses, filters_of,
}
use my_mtlwallet_bot.Events.Identity.{Among}

-- A field that is unset, or is the value.
abbrev pub IsUnsetOr : Option String → String → Type 0
IsUnsetOr o s = (o ≡ none) ⊎ (o ≡ some s)

module _ (py : Python) where
  -- A filter that asks for more than the amount, for this kind of operation, and for this wallet
  -- and asset or for any.
  abbrev pub Silences : String → String → String → py.Float → NotificationFilter py.Float → Type 0
  Silences key kind asset amount f =
      IsUnsetOr f.public_key key
      × (IsUnsetOr f.asset_code asset
          × ((py.less amount f.min_amount ≡ true) × (f.operation_type ≡ kind)))

  -- The event shows the wallet and the amount; the wallet is its user's, is not deleted, and has a
  -- key of the kind asked for; no filter of the user silences it.
  pub record IsFor (rows : List Row) (filters : List (NotificationFilter py.Float))
      (IsKey : String → Type 0) (kind asset : String) (amount : py.Float)
      (n : BlockchainNotification) : Type 0 where
    pub row : Row
    pub listed : Among row rows
    pub alive : row.need_delete ≡ 0
    pub owned : 0 < row.user_id
    pub keyed : IsKey row.public_key
    pub user : n.user_id ≡ row.user_id
    pub shows_key : field "public_key" n.payload ≡ some (string row.public_key)
    pub shows_amount : field "amount" n.payload ≡ some (string (py.shown amount))
    pub heard :
        (f : NotificationFilter py.Float)
        → Among f filters
        → f.user_id ≡ row.user_id
        → Silences row.public_key kind asset amount f
        → ⊥

  -- An account that the operation names.
  abbrev pub IsNamed : Operation py → Payload py.Float → String → Type 0
  IsNamed op payload key =
      (op.for_account ≡ some key)
      ⊎ ((op.from_account ≡ some key) ⊎ (field "trustor" payload.info ≡ some (string key)))

  is_unset : (o : Option String) (s : String) → IsUnsetOr o s → unset_or o s ≡ true
  is_unset none s h = refl
  is_unset (some t) s (inl e) = cc
  is_unset (some t) s (inr e) = (eq_iff t s).1 (cc e)

  Silences-suppresses :
      (w : NotificationWallet) (op : Operation py) (f : NotificationFilter py.Float)
      → Silences w.public_key op.operation (display_asset_code py op) (display_amount_value py op) f
      → suppresses py w op f ≡ true
  Silences-suppresses w op f (key, (asset, (small, kind))) =
      rw
        (
          is_unset f.public_key w.public_key key,
          is_unset f.asset_code (display_asset_code py op) asset,
          small,
          (eq_iff f.operation_type op.operation).1 kind,
        )
        refl

  any-filters_of :
      (w : NotificationWallet) (op : Operation py) (user : ℕ) (f : NotificationFilter py.Float)
      (filters : List (NotificationFilter py.Float))
      → Among f filters
      → f.user_id ≡ user
      → suppresses py w op f ≡ true
      → any (suppresses py w op) (filters_of py user filters) ≡ true
  any-filters_of w op user f [] i e t = elim i [ ]
  any-filters_of w op user f (g ∷ filters) (inl same) e t =
      let own : (g.user_id == user) ≡ true =
        (==_iff g.user_id user).1 (ap (λ (x : NotificationFilter py.Float). x.user_id) same ∙ e) in
      let hit : suppresses py w op g ≡ true =
        subst (λ x. suppresses py w op x ≡ true) (sym same) t in
      rw (own, hit) refl
  any-filters_of w op user f (g ∷ filters) (inr i) e t =
      let ih = any-filters_of w op user f filters i e t in
      elim (Bool-cases (g.user_id == user)) [
        | inl own ↦ rw (own, ih) (ground arith)
        | inr other ↦ rw other ih
      ]

  pub unheard :
      (w : NotificationWallet) (op : Operation py) (filters : List (NotificationFilter py.Float))
      (f : NotificationFilter py.Float)
      → any (suppresses py w op) (filters_of py w.user_id filters) ≡ false
      → Among f filters
      → f.user_id ≡ w.user_id
      → Silences w.public_key op.operation (display_asset_code py op) (display_amount_value py op) f
      → ⊥
  unheard w op filters f quiet i e h =
      let hit = any-filters_of w op w.user_id f filters i e (Silences-suppresses w op f h) in cc

  elem-optional : (o : Option String) (key : String) → elem key (optional o) ≡ true → o ≡ some key
  elem-optional none key h = cc
  elem-optional (some s) key h = ap some (
      (eq_iff s key).0 (elim (Bool-cases (str_eq s key)) [
        | inl t ↦ t
        | inr f ↦ let g : false ≡ true = rw f at h in cc
      ]))

  elem-trustor_of :
      (o : Option Primitive) (key : String) → elem key (trustor_of o) ≡ true → o ≡ some (string key)
  elem-trustor_of none key h = cc
  elem-trustor_of (some (string s)) key h = elim (Bool-cases (str_eq s "")) [
    | inl t ↦ let g : false ≡ true = rw t at h in cc
    | inr f ↦
        let g : elem key (optional (some s)) ≡ true = rw f at h in
        ap
          (λ (x : Option String). elim x as (λ y. Option Primitive) [
            | none ↦ none
            | some t ↦ some (string t)
          ])
          (elem-optional (some s) key g)
  ]
  elem-trustor_of (some (int n)) key h = cc
  elem-trustor_of (some (float n)) key h = cc
  elem-trustor_of (some (bool n)) key h = cc
  elem-trustor_of (some null) key h = cc

  pub elem-IsNamed :
      (op : Operation py) (payload : Payload py.Float) (key : String)
      → elem key (
          optional op.for_account
          ++ (optional op.from_account ++ trustor_of (field "trustor" payload.info)))
        ≡ true
      → IsNamed op payload key
  elem-IsNamed op payload key h =
      let rest = optional op.from_account ++ trustor_of (field "trustor" payload.info) in
      let split : (elem key (optional op.for_account) || elem key rest) ≡ true =
        sym (elem-append key (optional op.for_account) rest) ∙ h in
      elim (Bool-cases (elem key (optional op.for_account))) [
        | inl t ↦ inl (elem-optional op.for_account key t)
        | inr f ↦
            let later : (elem key (optional op.from_account)
                  || elem key (trustor_of (field "trustor" payload.info)))
                ≡ true =
              sym (
                elem-append key (optional op.from_account)
                  (trustor_of (field "trustor" payload.info)))
              ∙ (rw f at split) in
            elim (Bool-cases (elem key (optional op.from_account))) [
              | inl t ↦ inr (inl (elem-optional op.from_account key t))
              | inr g ↦
                  inr (inr (elem-trustor_of (field "trustor" payload.info) key (rw g at later)))
            ]
      ]

  pub notified-alive :
      (accounts : List String) (r : Row)
      → is_notified accounts r ≡ true
      → (r.need_delete ≡ 0) × ((0 < r.user_id) × (elem r.public_key accounts ≡ true))
  notified-alive accounts r h = (ground (arith, h), (ground (arith, h), ground (arith, h)))
