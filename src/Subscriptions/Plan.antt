-- ===== src/Subscriptions/Plan.antt =====
-- What the plan of `sync_subscriptions` deletes and subscribes, one account at a time.
use text.Mathlib.Text.{◌==◌ as str_eq}
use my_mtlwallet_bot.Prelude.{
  String, ◌≡◌, refl, sym, ◌∙◌, subst, Bool, true, false, not, ◌||◌, ◌&&◌, List, [], ◌∷◌, ◌++◌,
  arith, if◌then◌else◌, eq_iff, Bool-cases, inl, inr,
}
use my_mtlwallet_bot.Subscriptions.{
  Subscription, elem, of_account, ids, subscribed_accounts, action, to_delete, to_resubscribe,
  not_subscribed, to_subscribe,
}
use my_mtlwallet_bot.Subscriptions.Accounts.{
  AreDistinct, IsIn, elem-append, id-account, act_on-ids, elem-subscribed_accounts,
  subscribed_accounts-AreDistinct, has, elem-has,
}

-- A sublist of keys, and the urls that a batch of keys gives one account.
abbrev keep : (String → Bool) → List String → List String
keep test [] = []
keep test (key ∷ keys) = if test key then key ∷ keep test keys else keep test keys

abbrev pub urls_for : String → String → List String → List String
urls_for account webhook [] = []
urls_for account webhook (key ∷ keys) =
    if str_eq key account
    then webhook ∷ urls_for account webhook keys
    else urls_for account webhook keys

abbrev pub once : Bool → String → List String
once b webhook = if b then webhook ∷ [] else []

pub urls_for-append :
    (account webhook : String) (xs ys : List String)
    → urls_for account webhook (xs ++ ys)
      ≡ urls_for account webhook xs ++ urls_for account webhook ys
urls_for-append account webhook [] ys = refl
urls_for-append account webhook (x ∷ xs) ys = elim (Bool-cases (str_eq x account)) [
  | inl e ↦ rw (e, urls_for-append account webhook xs ys) refl
  | inr e ↦ rw (e, urls_for-append account webhook xs ys) refl
]

urls_for-absent :
    (account webhook : String) (test : String → Bool) (keys : List String)
    → elem account keys ≡ false
    → urls_for account webhook (keep test keys) ≡ []
urls_for-absent account webhook test [] h = refl
urls_for-absent account webhook test (key ∷ keys) h = elim (Bool-cases (str_eq key account)) [
  | inl same ↦ let g : true ≡ false = rw same at h in cc
  | inr other ↦
      let ih = urls_for-absent account webhook test keys (rw other at h) in
      elim (Bool-cases (test key)) [ inl t ↦ rw (t, other) ih | inr f ↦ rw f ih ]
]

urls_for-keep :
    (account webhook : String) (test : String → Bool) (keys : List String)
    → AreDistinct keys
    → urls_for account webhook (keep test keys) ≡ once (elem account keys && test account) webhook
urls_for-keep account webhook test [] d = refl
urls_for-keep account webhook test (key ∷ keys) d = elim (Bool-cases (str_eq key account)) [
  | inl same ↦
      let eq = (eq_iff key account).0 same in
      let rest =
        urls_for-absent account webhook test keys (subst (λ x. elem x keys ≡ false) eq d.0) in
      elim (Bool-cases (test account)) [
        | inl t ↦ rw (subst (λ x. test x ≡ true) (sym eq) t, same, t, rest) refl
        | inr f ↦ rw (subst (λ x. test x ≡ false) (sym eq) f, same, f, rest) refl
      ]
  | inr other ↦
      let ih = urls_for-keep account webhook test keys d.1 in
      elim (Bool-cases (test key)) [ inl t ↦ rw (t, other) ih | inr f ↦ rw (f, other) ih ]
]

module _ (db_keys : List String) (webhook : String) (subs : List Subscription)
    (distinct : AreDistinct (ids subs)) where
  to_delete-only :
      (a : Subscription) (accounts : List String)
      → IsIn a subs
      → elem a.subscription_id (to_delete db_keys webhook subs accounts) ≡ true
      → elem a.subscription_id (action db_keys webhook subs a.account).0 ≡ true
  unfolding to_delete
  to_delete-only a [] i h = cc
  to_delete-only a (b ∷ accounts) i h =
      let split : (elem a.subscription_id (action db_keys webhook subs b).0
            || elem a.subscription_id (to_delete db_keys webhook subs accounts))
          ≡ true =
        sym (
          elem-append a.subscription_id (action db_keys webhook subs b).0
            (to_delete db_keys webhook subs accounts))
        ∙ h in
      elim (Bool-cases (elem a.subscription_id (action db_keys webhook subs b).0)) [
        | inl t ↦
            let own =
              id-account a b subs distinct i
                (act_on-ids (elem b db_keys) webhook a.subscription_id (of_account b subs) t) in
            subst (λ x. elem a.subscription_id (action db_keys webhook subs x).0 ≡ true)
              (sym ((eq_iff a.account b).0 own)) t
        | inr f ↦ to_delete-only a accounts i (rw f at split)
      ]

  to_delete-all :
      (id account : String) (accounts : List String)
      → elem account accounts ≡ true
      → elem id (action db_keys webhook subs account).0 ≡ true
      → elem id (to_delete db_keys webhook subs accounts) ≡ true
  unfolding to_delete
  to_delete-all id account [] h t = cc
  to_delete-all id account (b ∷ accounts) h t =
      elem-append id (action db_keys webhook subs b).0 (to_delete db_keys webhook subs accounts)
      ∙ elim (Bool-cases (str_eq b account)) [
        | inl same ↦
            let eq = (eq_iff b account).0 same in
            let t' = subst (λ x. elem id (action db_keys webhook subs x).0 ≡ true) (sym eq) t in
            rw t' refl
        | inr other ↦ rw (to_delete-all id account accounts (rw other at h) t) (ground arith)
      ]

  -- A subscription is deleted exactly if its own account asks for it.
  pub to_delete-own :
      (a : Subscription)
      → IsIn a subs
      → elem a.subscription_id (to_delete db_keys webhook subs (subscribed_accounts subs))
        ≡ elem a.subscription_id (action db_keys webhook subs a.account).0
  to_delete-own a i =
      elim (Bool-cases (elem a.subscription_id (action db_keys webhook subs a.account).0)) [
        | inl t ↦
            to_delete-all a.subscription_id a.account (subscribed_accounts subs)
              (elem-subscribed_accounts a subs i) t
            ∙ sym t
        | inr f ↦
            elim (Bool-cases (
              elem a.subscription_id (to_delete db_keys webhook subs (subscribed_accounts subs)))) [
                | inl t ↦ let g = to_delete-only a (subscribed_accounts subs) i t in cc
                | inr e ↦ e ∙ sym f
              ]
      ]

  resubscribe-keep :
      (accounts : List String)
      → to_resubscribe db_keys webhook subs accounts
        ≡ keep (λ account. (action db_keys webhook subs account).1) accounts
  unfolding to_resubscribe
  resubscribe-keep [] = refl
  resubscribe-keep (account ∷ accounts) = rw (resubscribe-keep accounts) refl

  abbrev is_new : String → Bool
  is_new key = not (elem key (subscribed_accounts subs)) && not (str_eq key "")

  not_subscribed-keep :
      (keys : List String) → not_subscribed db_keys webhook subs keys ≡ keep is_new keys
  unfolding not_subscribed
  not_subscribed-keep [] = refl
  not_subscribed-keep (key ∷ keys) = rw (not_subscribed-keep keys) refl

  -- What the plan subscribes of one account.
  pub urls_for-plan :
      (account : String)
      → AreDistinct db_keys
      → urls_for account webhook (to_subscribe db_keys webhook subs)
        ≡ once (has (of_account account subs) && (action db_keys webhook subs account).1) webhook
          ++ once
              (elem account db_keys
                && (not (has (of_account account subs)) && not (str_eq account "")))
              webhook
  urls_for-plan account d =
      rw
        (
          urls_for-append account webhook
              (to_resubscribe db_keys webhook subs (subscribed_accounts subs))
              (not_subscribed db_keys webhook subs db_keys),
          resubscribe-keep (subscribed_accounts subs),
          not_subscribed-keep db_keys,
          urls_for-keep account webhook (λ account. (action db_keys webhook subs account).1)
              (subscribed_accounts subs) (subscribed_accounts-AreDistinct subs),
          urls_for-keep account webhook is_new db_keys d,
          elem-has account subs,
        )
        refl
