-- ===== src/Subscriptions/Accounts.antt =====
-- Subscriptions, their ids and their accounts.
use text.Mathlib.Text.{◌==◌ as str_eq}
use my_mtlwallet_bot.Prelude.{
  String, ◌≡◌, ◌⊎◌, refl, ap, subst, Bool, true, false, ◌||◌, List, [], ◌∷◌, ◌++◌, arith, eq_iff,
  eq_refl, Bool-cases, inl, inr,
}
use my_mtlwallet_bot.Subscriptions.{
  Subscription, elem, of_account, ids, subscribed_accounts, act_on,
}

abbrev pub AreDistinct : List String → Type 0
AreDistinct [] = Unit
AreDistinct (s ∷ ss) = (elem s ss ≡ false) × AreDistinct ss

abbrev pub IsIn : Subscription → List Subscription → Type 0
IsIn a [] = ⊥
IsIn a (sub ∷ subs) = (sub ≡ a) ⊎ IsIn a subs

pub elem-append : (s : String) (xs ys : List String) → elem s (xs ++ ys) ≡ (elem s xs || elem s ys)
elem-append s [] ys = refl
elem-append s (x ∷ xs) ys = ground (arith, elem-append s xs ys)

-- An id of an account's subscriptions is an id.
pub ids-of_account :
    (id account : String) (subs : List Subscription)
    → elem id (ids (of_account account subs)) ≡ true
    → elem id (ids subs) ≡ true
ids-of_account id account [] h = h
ids-of_account id account (sub ∷ subs) h = elim (Bool-cases (str_eq sub.account account)) [
  | inl e ↦
      let g : (str_eq sub.subscription_id id || elem id (ids (of_account account subs))) ≡ true =
        rw e at h in
      ground (arith, ids-of_account id account subs)
  | inr e ↦ ground (arith, ids-of_account id account subs (rw e at h))
]

pub elem-ids :
    (a : Subscription) (subs : List Subscription)
    → IsIn a subs
    → elem a.subscription_id (ids subs) ≡ true
elem-ids a [] i = elim i [ ]
elem-ids a (sub ∷ subs) (inl e) =
    rw (ap (λ (x : Subscription). x.subscription_id) e, eq_refl a.subscription_id) refl
elem-ids a (sub ∷ subs) (inr i) = rw (elem-ids a subs i) (ground arith)

-- Where ids are distinct, an id that an account's subscriptions have belongs to that account.
pub id-account :
    (a : Subscription) (account : String) (subs : List Subscription)
    → AreDistinct (ids subs)
    → IsIn a subs
    → elem a.subscription_id (ids (of_account account subs)) ≡ true
    → str_eq a.account account ≡ true
id-account a account [] d i h = elim i [ ]
id-account a account (sub ∷ subs) d (inl e) h = elim (Bool-cases (str_eq sub.account account)) [
  | inl own ↦ subst (λ (x : Subscription). str_eq x.account account ≡ true) e own
  | inr other ↦
      let g = ids-of_account a.subscription_id account subs (rw other at h) in
      let same = ap (λ (x : Subscription). x.subscription_id) e in cc (d.0, g, same)
]
id-account a account (sub ∷ subs) d (inr i) h = elim (Bool-cases (str_eq sub.account account)) [
  | inl own ↦
      let g : (str_eq sub.subscription_id a.subscription_id
            || elem a.subscription_id (ids (of_account account subs)))
          ≡ true =
        rw own at h in
      elim (Bool-cases (str_eq sub.subscription_id a.subscription_id)) [
        | inl same ↦
            let there = elem-ids a subs i in
            let eq = (eq_iff sub.subscription_id a.subscription_id).0 same in cc (d.0, there, eq)
        | inr apart ↦ id-account a account subs d.1 i (rw apart at g)
      ]
  | inr other ↦ id-account a account subs d.1 i (rw other at h)
]

pub act_on-ids :
    (known : Bool) (webhook id : String) (subs : List Subscription)
    → elem id (act_on known webhook subs).0 ≡ true
    → elem id (ids subs) ≡ true
act_on-ids false webhook id subs h = h
act_on-ids true webhook id [] h = h
act_on-ids true webhook id (sub ∷ []) h = elim (Bool-cases (str_eq sub.reaction_url webhook)) [
  | inl e ↦ let g : false ≡ true = rw e at h in cc
  | inr e ↦ rw e at h
]
act_on-ids true webhook id (sub ∷ (other ∷ subs)) h = h

pub elem-subscribed_accounts :
    (a : Subscription) (subs : List Subscription)
    → IsIn a subs
    → elem a.account (subscribed_accounts subs) ≡ true
unfolding subscribed_accounts
elem-subscribed_accounts a [] i = elim i [ ]
elem-subscribed_accounts a (sub ∷ subs) (inl e) =
    elim (Bool-cases (elem sub.account (subscribed_accounts subs))) [
      | inl t ↦
          rw t (subst (λ (x : Subscription). elem x.account (subscribed_accounts subs) ≡ true) e t)
      | inr f ↦ rw (f, ap (λ (x : Subscription). x.account) e, eq_refl a.account) refl
    ]
elem-subscribed_accounts a (sub ∷ subs) (inr i) =
    let ih = elem-subscribed_accounts a subs i in
    elim (Bool-cases (elem sub.account (subscribed_accounts subs))) [
      | inl t ↦ rw t ih
      | inr f ↦ rw (f, ih) (ground arith)
    ]

pub subscribed_accounts-AreDistinct :
    (subs : List Subscription) → AreDistinct (subscribed_accounts subs)
unfolding subscribed_accounts
subscribed_accounts-AreDistinct [] = tt
subscribed_accounts-AreDistinct (sub ∷ subs) =
    elim (Bool-cases (elem sub.account (subscribed_accounts subs))) [
      | inl t ↦ rw t (subscribed_accounts-AreDistinct subs)
      | inr f ↦ rw f (f, subscribed_accounts-AreDistinct subs)
    ]

abbrev pub has : List Subscription → Bool
has [] = false
has (sub ∷ subs) = true

-- An account is among the subscribed ones exactly if it has subscriptions.
pub elem-has :
    (account : String) (subs : List Subscription)
    → elem account (subscribed_accounts subs) ≡ has (of_account account subs)
unfolding subscribed_accounts
elem-has account [] = refl
elem-has account (sub ∷ subs) =
    let ih = elem-has account subs in
    elim (Bool-cases (str_eq sub.account account)) [
      | inl own ↦ elim (Bool-cases (elem sub.account (subscribed_accounts subs))) [
        | inl t ↦
            rw (t, own)
              (subst (λ x. elem x (subscribed_accounts subs) ≡ true)
                ((eq_iff sub.account account).0 own) t)
        | inr f ↦ rw (f, own) refl
      ]
      | inr other ↦ elim (Bool-cases (elem sub.account (subscribed_accounts subs))) [
        | inl t ↦ rw (t, other) ih
        | inr f ↦ rw (f, other) ih
      ]
    ]
