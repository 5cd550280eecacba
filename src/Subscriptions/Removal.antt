-- ===== src/Subscriptions/Removal.antt =====
-- The subscriptions that stay when ids are deleted, and the keys of the watched wallets.
use text.Mathlib.Text.{◌==◌ as str_eq}
use my_mtlwallet_bot.Prelude.{
  String, ◌≡◌, refl, ap, subst, Bool, true, false, not, ◌&&◌, List, [], ◌∷◌, ◌++◌, map, ◌||◌, arith,
  if◌then◌else◌, eq_iff, eq_refl, Bool-cases, inl, inr,
}
use my_mtlwallet_bot.Subscriptions.{
  Subscription, elem, of_account, ids, act_on, distinct, watched_keys, starts_with_g, is_watched,
}
use my_mtlwallet_bot.Subscriptions.Accounts.{AreDistinct, IsIn, has, elem-ids}
use my_mtlwallet_bot.Subscriptions.Plan.{once}
use my_mtlwallet_bot.Wallets.Table.{Row}

-- The subscriptions that are not among the ids.
abbrev pub remove : List String → List Subscription → List Subscription
remove gone [] = []
remove gone (sub ∷ subs) =
    if elem sub.subscription_id gone then remove gone subs else sub ∷ remove gone subs

pub remove_none : (subs : List Subscription) → remove [] subs ≡ subs
remove_none [] = refl
remove_none (sub ∷ subs) = ap (λ l. sub ∷ l) (remove_none subs)

pub remove_cons :
    (id : String) (gone : List String) (subs : List Subscription)
    → remove gone (remove (id ∷ []) subs) ≡ remove (id ∷ gone) subs
remove_cons id gone [] = refl
remove_cons id gone (sub ∷ subs) = elim (Bool-cases (str_eq id sub.subscription_id)) [
  | inl e ↦ rw (e, remove_cons id gone subs) refl
  | inr e ↦ rw (e, remove_cons id gone subs) refl
]

pub of_account-remove :
    (account : String) (gone : List String) (subs : List Subscription)
    → of_account account (remove gone subs) ≡ remove gone (of_account account subs)
of_account-remove account gone [] = refl
of_account-remove account gone (sub ∷ subs) =
    let ih = of_account-remove account gone subs in
    elim (Bool-cases (str_eq sub.account account)) [
      | inl own ↦ elim (Bool-cases (elem sub.subscription_id gone)) [
        | inl t ↦ rw (t, own, t) ih
        | inr f ↦ rw (f, own, f, ih) refl
      ]
      | inr other ↦ elim (Bool-cases (elem sub.subscription_id gone)) [
        | inl t ↦ rw (t, other) ih
        | inr f ↦ rw (f, other) ih
      ]
    ]

pub of_account-IsIn :
    (b : Subscription) (account : String) (subs : List Subscription)
    → IsIn b (of_account account subs)
    → IsIn b subs × (b.account ≡ account)
of_account-IsIn b account [] i = elim i [ ]
of_account-IsIn b account (sub ∷ subs) i = elim (Bool-cases (str_eq sub.account account)) [
  | inl own ↦
      let here : IsIn b (sub ∷ of_account account subs) = rw own at i in
      elim here [
        | inl e ↦ (
          inl e,
          subst (λ (x : Subscription). x.account ≡ account) e ((eq_iff sub.account account).0 own),
        )
        | inr j ↦ let rest = of_account-IsIn b account subs j in (inr rest.0, rest.1)
      ]
  | inr other ↦ let rest = of_account-IsIn b account subs (rw other at i) in (inr rest.0, rest.1)
]

pub remove_same :
    (xs ys : List String) (subs : List Subscription)
    → ((b : Subscription) → IsIn b subs → elem b.subscription_id xs ≡ elem b.subscription_id ys)
    → remove xs subs ≡ remove ys subs
remove_same xs ys [] h = refl
remove_same xs ys (sub ∷ subs) h =
    rw (h sub (inl refl), remove_same xs ys subs (λ b i. h b (inr i))) refl

remove_all :
    (gone : List String) (subs : List Subscription)
    → ((b : Subscription) → IsIn b subs → elem b.subscription_id gone ≡ true)
    → remove gone subs ≡ []
remove_all gone [] h = refl
remove_all gone (sub ∷ subs) h = rw (h sub (inl refl)) (remove_all gone subs (λ b i. h b (inr i)))

remove-ids : (subs : List Subscription) → remove (ids subs) subs ≡ []
remove-ids subs = remove_all (ids subs) subs (λ b i. elem-ids b subs i)

-- What stays of one account, and what is subscribed anew.
pub act_on-urls :
    (known : Bool) (webhook : String) (subs : List Subscription)
    → map (λ (sub : Subscription). sub.reaction_url) (remove (act_on known webhook subs).0 subs)
        ++ once (has subs && (act_on known webhook subs).1) webhook
      ≡ once (has subs && known) webhook
act_on-urls false webhook subs = rw (remove-ids subs) refl
act_on-urls true webhook [] = refl
act_on-urls true webhook (sub ∷ []) = elim (Bool-cases (str_eq sub.reaction_url webhook)) [
  | inl e ↦ rw (e) (ap (λ x. x ∷ []) ((eq_iff sub.reaction_url webhook).0 e))
  | inr e ↦ rw (e, eq_refl sub.subscription_id) refl
]
act_on-urls true webhook (sub ∷ (other ∷ subs)) = rw (remove-ids (sub ∷ other ∷ subs)) refl

pub distinct-AreDistinct : (keys : List String) → AreDistinct (distinct keys)
unfolding distinct
distinct-AreDistinct [] = tt
distinct-AreDistinct (key ∷ keys) = elim (Bool-cases (elem key (distinct keys))) [
  | inl t ↦ rw t (distinct-AreDistinct keys)
  | inr f ↦ rw f (f, distinct-AreDistinct keys)
]

pub elem-distinct :
    (account : String) (keys : List String) → elem account (distinct keys) ≡ elem account keys
unfolding distinct
elem-distinct account [] = refl
elem-distinct account (key ∷ keys) =
    let ih = elem-distinct account keys in
    elim (Bool-cases (str_eq key account)) [
      | inl same ↦ elim (Bool-cases (elem key (distinct keys))) [
        | inl t ↦
            rw (t, same)
              (subst (λ x. elem x (distinct keys) ≡ true) ((eq_iff key account).0 same) t)
        | inr f ↦ rw (f, same) refl
      ]
      | inr other ↦ elim (Bool-cases (elem key (distinct keys))) [
        | inl t ↦ rw (t, other) ih
        | inr f ↦ rw (f, other) ih
      ]
    ]

pub elem-watched_keys :
    (account : String) (rows : List Row)
    → elem account (watched_keys rows) ≡ true
    → starts_with_g account ≡ true
elem-watched_keys account [] h = cc
elem-watched_keys account (r ∷ rows) h = elim (Bool-cases (is_watched r)) [
  | inl w ↦
      let g : (str_eq r.public_key account || elem account (watched_keys rows)) ≡ true =
        rw w at h in
      elim (Bool-cases (str_eq r.public_key account)) [
        | inl same ↦
            let own : starts_with_g r.public_key ≡ true = ground (arith, w) in
            subst (λ x. starts_with_g x ≡ true) ((eq_iff r.public_key account).0 same) own
        | inr other ↦ elem-watched_keys account rows (rw other at g)
      ]
  | inr w ↦ elem-watched_keys account rows (rw w at h)
]

pub starts_with_g-nonempty :
    (account : String) → starts_with_g account ≡ true → not (str_eq account "") ≡ true
starts_with_g-nonempty account g = elim (Bool-cases (str_eq account "")) [
  | inl e ↦ let h = subst (λ x. starts_with_g x ≡ true) ((eq_iff account "").0 e) g in cc
  | inr e ↦ rw e refl
]
