-- ===== src/Subscriptions/Synced.antt =====
-- `sync_subscriptions` of bot/infrastructure/services/notification_service.py with a notifier that
-- does what its two calls say.
use text.Mathlib.Text.{◌==◌ as str_eq}
use my_mtlwallet_bot.Prelude.{
  ℕ, zero, suc, ◌≤◌, String, ◌≡◌, refl, sym, ap, ◌∙◌, Bool, true, false, not, ◌&&◌, List, [], ◌∷◌,
  ◌++◌, map, arith, length, take, drop,
}
use my_mtlwallet_bot.Subscriptions.{
  Subscription, elem, of_account, ids, subscribed_accounts, action, to_delete, to_subscribe,
  Notifier, batch_size, unsubscribe_all, subscribe_batches, distinct, watched_keys, sync_keys,
  sync_subscriptions,
}
use my_mtlwallet_bot.Subscriptions.Accounts.{AreDistinct, has}
use my_mtlwallet_bot.Subscriptions.Plan.{
  to_delete-own, urls_for-plan, urls_for-append, once, urls_for,
}
use my_mtlwallet_bot.Subscriptions.Removal.{
  remove, remove_none, remove_cons, of_account-remove, of_account-IsIn, remove_same, act_on-urls,
  distinct-AreDistinct, elem-distinct, elem-watched_keys, starts_with_g-nonempty,
}
use my_mtlwallet_bot.Wallets.Table.{Row}

abbrev pub urls_of : String → List Subscription → List String
urls_of account subs = map (λ (sub : Subscription). sub.reaction_url) (of_account account subs)

-- A notifier whose calls change what they name: a deletion takes the id out, a batch adds one
-- subscription for each key and none to other accounts.
pub record IsFaithful (notifier : Notifier) : Type 0 where
  pub unsubscribe_law :
      (id : String) (s : notifier.State)
      → notifier.subscriptions (notifier.unsubscribe id s)
        ≡ remove (id ∷ []) (notifier.subscriptions s)
  pub subscribe_law :
      (account webhook : String) (keys : List String) (s : notifier.State)
      → urls_of account (notifier.subscriptions (notifier.subscribe_batch webhook keys s))
        ≡ urls_of account (notifier.subscriptions s) ++ urls_for account webhook keys

append_nil : {A : Type 0} → (xs : List A) → xs ++ [] ≡ xs
append_nil [] = refl
append_nil (x ∷ xs) = ap (λ l. x ∷ l) (append_nil xs)

append_assoc : {A : Type 0} → (xs ys zs : List A) → (xs ++ ys) ++ zs ≡ xs ++ (ys ++ zs)
append_assoc [] ys zs = refl
append_assoc (x ∷ xs) ys zs = ap (λ l. x ∷ l) (append_assoc xs ys zs)

take-drop : {A : Type 0} → (n : ℕ) (xs : List A) → take n xs ++ drop n xs ≡ xs
take-drop zero xs = refl
take-drop (suc n) [] = refl
take-drop (suc n) (x ∷ xs) = ap (λ l. x ∷ l) (take-drop n xs)

length-drop : {A : Type 0} → (n : ℕ) (xs : List A) → length (drop n xs) ≤ length xs
length-drop zero xs = omega arith
length-drop (suc n) [] = omega arith
length-drop (suc n) (x ∷ xs) = omega (arith, length-drop n xs)

once-split :
    (known : Bool) (webhook : String) (subs : List Subscription) (nonempty : Bool)
    → (known ≡ true → nonempty ≡ true)
    → once (has subs && known) webhook ++ once (known && (not (has subs) && nonempty)) webhook
      ≡ once known webhook
once-split false webhook [] nonempty h = refl
once-split true webhook [] nonempty h = rw (h refl) refl
once-split false webhook (sub ∷ subs) nonempty h = refl
once-split true webhook (sub ∷ subs) nonempty h = refl

module _ (notifier : Notifier) (faithful : IsFaithful notifier) where
  open notifier use {State, subscriptions}

  unsubscribe_all-remove :
      (gone : List String) (s : State)
      → subscriptions (unsubscribe_all notifier gone s) ≡ remove gone (subscriptions s)
  unfolding unsubscribe_all
  unsubscribe_all-remove [] s = sym (remove_none (subscriptions s))
  unsubscribe_all-remove (id ∷ gone) s =
      unsubscribe_all-remove gone (notifier.unsubscribe id s)
      ∙ ap (remove gone) (faithful.unsubscribe_law id s)
      ∙ remove_cons id gone (subscriptions s)

  subscribe_batches-urls :
      (account webhook : String) (batches : ℕ) (keys : List String) (s : State)
      → length keys ≤ batches
      → urls_of account (subscriptions (subscribe_batches notifier batches webhook keys s))
        ≡ urls_of account (subscriptions s) ++ urls_for account webhook keys
  unfolding subscribe_batches
  subscribe_batches-urls account webhook zero [] s h =
      sym (append_nil (urls_of account (subscriptions s)))
  subscribe_batches-urls account webhook zero (key ∷ keys) s h = absurd (omega arith)
  subscribe_batches-urls account webhook (suc batches) [] s h =
      sym (append_nil (urls_of account (subscriptions s)))
  subscribe_batches-urls account webhook (suc batches) (key ∷ keys) s h =
      let chunk = take batch_size (key ∷ keys) in
      let rest = drop batch_size (key ∷ keys) in
      let s' = notifier.subscribe_batch webhook chunk s in
      subscribe_batches-urls account webhook batches rest s' (omega (arith, length-drop 4999 keys))
      ∙ ap (λ l. l ++ urls_for account webhook rest)
          (faithful.subscribe_law account webhook chunk s)
      ∙ append_assoc (urls_of account (subscriptions s)) (urls_for account webhook chunk)
          (urls_for account webhook rest)
      ∙ ap (λ l. urls_of account (subscriptions s) ++ l)
          (sym (urls_for-append account webhook chunk rest)
            ∙ ap (urls_for account webhook) (take-drop batch_size (key ∷ keys)))

  -- What the deletions leave of one account is what its own action leaves.
  deleted-urls :
      (account webhook : String) (db_keys : List String) (subs : List Subscription)
      → AreDistinct (ids subs)
      → of_account account (remove (to_delete db_keys webhook subs (subscribed_accounts subs)) subs)
        ≡ remove (action db_keys webhook subs account).0 (of_account account subs)
  deleted-urls account webhook db_keys subs d =
      of_account-remove account (to_delete db_keys webhook subs (subscribed_accounts subs)) subs
      ∙ remove_same (to_delete db_keys webhook subs (subscribed_accounts subs))
          (action db_keys webhook subs account).0 (of_account account subs)
          (λ b i.
            let there = of_account-IsIn b account subs i in
            to_delete-own db_keys webhook subs d b there.0
            ∙ ap (λ x. elem b.subscription_id (action db_keys webhook subs x).0) there.1)

  sync_keys-synced :
      (account webhook : String) (db_keys : List String) (s : State)
      → AreDistinct (ids (subscriptions s))
      → AreDistinct db_keys
      → (elem account db_keys ≡ true → not (str_eq account "") ≡ true)
      → urls_of account (subscriptions (sync_keys notifier db_keys webhook s))
        ≡ once (elem account db_keys) webhook
  unfolding sync_keys
  sync_keys-synced account webhook db_keys s ids_distinct keys_distinct nonempty =
      let subs = subscriptions s in
      let gone = to_delete db_keys webhook subs (subscribed_accounts subs) in
      let keys = to_subscribe db_keys webhook subs in
      let own = of_account account subs in
      let plan = action db_keys webhook subs account in
      let url_list = map (λ (sub : Subscription). sub.reaction_url) in
      subscribe_batches-urls account webhook (length keys) keys (unsubscribe_all notifier gone s)
        (omega arith)
      ∙ ap (λ l. urls_of account l ++ urls_for account webhook keys) (unsubscribe_all-remove gone s)
      ∙ ap (λ l. url_list l ++ urls_for account webhook keys)
          (deleted-urls account webhook db_keys subs ids_distinct)
      ∙ ap (λ l. url_list (remove plan.0 own) ++ l)
          (urls_for-plan db_keys webhook subs ids_distinct account keys_distinct)
      ∙ sym (
          append_assoc (url_list (remove plan.0 own)) (once (has own && plan.1) webhook)
            (once (elem account db_keys && (not (has own) && not (str_eq account ""))) webhook))
      ∙ ap
          (λ l.
            l ++ once (elem account db_keys && (not (has own) && not (str_eq account ""))) webhook)
          (act_on-urls (elem account db_keys) webhook own)
      ∙ once-split (elem account db_keys) webhook own (not (str_eq account "")) nonempty

  -- Whatever the notifier held, after sync_subscriptions with a notifier that carries out the
  -- calls it is sent, every account with a watched wallet has exactly one subscription, with the
  -- webhook's address, and every other account has none; the notifier's address is set, and its
  -- ids are distinct.
  pub sync_subscriptions-synced :
      (account notifier_url webhook : String) (rows : List Row) (s : State)
      → AreDistinct (ids (subscriptions s))
      → str_eq notifier_url "" ≡ false
      → urls_of account (subscriptions (sync_subscriptions notifier notifier_url webhook rows s))
        ≡ once (elem account (watched_keys rows)) webhook
  unfolding sync_subscriptions
  sync_subscriptions-synced account notifier_url webhook rows s ids_distinct set = rw set (
      sync_keys-synced account webhook (distinct (watched_keys rows)) s ids_distinct
        (distinct-AreDistinct (watched_keys rows))
        (λ h.
          starts_with_g-nonempty account
            (elem-watched_keys account rows (sym (elem-distinct account (watched_keys rows)) ∙ h)))
      ∙ ap (λ b. once b webhook) (elem-distinct account (watched_keys rows)))
