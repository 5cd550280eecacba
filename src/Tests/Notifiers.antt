-- ===== src/Tests/Notifiers.antt =====
-- A notifier in memory: a list of subscriptions, and the next id, a text that gets longer.
use text.Mathlib.Text.{◌==◌ as str_eq}
use my_mtlwallet_bot.Prelude.{
  ℕ, zero, suc, String, ◌≡◌, refl, ap, ◌∙◌, List, [], ◌∷◌, ◌++◌, Bool-cases, inl, inr, none, some,
}
use my_mtlwallet_bot.Wallets.Table.{Row}
use my_mtlwallet_bot.Subscriptions.{
  Subscription, ids, Notifier, sync_keys, sync_subscriptions, subscribe_batches, to_resubscribe,
  subscribed_accounts, distinct, not_subscribed, unsubscribe_all, to_delete,
}
use my_mtlwallet_bot.Subscriptions.Plan.{urls_for}
use my_mtlwallet_bot.Subscriptions.Removal.{remove}
use my_mtlwallet_bot.Subscriptions.Synced.{urls_of, IsFaithful, sync_subscriptions-synced}

abbrev Server : Type 0
Server = List Subscription × ℕ

abbrev id_text : ℕ → String
id_text zero = "id"
id_text (suc n) = "id-next"

abbrev subscribed : String → List String → ℕ → List Subscription
subscribed webhook [] n = []
subscribed webhook (key ∷ keys) n =
    record { subscription_id = id_text n; account = key; reaction_url = webhook }
    ∷ subscribed webhook keys (suc n)

abbrev server : Notifier
server = record {
  State = Server;
  subscriptions = λ s. s.0;
  unsubscribe = λ id s. (remove (id ∷ []) s.0, s.1);
  subscribe_batch = λ webhook keys s. (s.0 ++ subscribed webhook keys s.1, suc s.1);
}

urls_of-append :
    (account : String) (xs ys : List Subscription)
    → urls_of account (xs ++ ys) ≡ urls_of account xs ++ urls_of account ys
urls_of-append account [] ys = refl
urls_of-append account (x ∷ xs) ys = elim (Bool-cases (str_eq x.account account)) [
  | inl e ↦ rw (e, urls_of-append account xs ys) refl
  | inr e ↦ rw (e, urls_of-append account xs ys) refl
]

urls_of-subscribed :
    (account webhook : String) (keys : List String) (n : ℕ)
    → urls_of account (subscribed webhook keys n) ≡ urls_for account webhook keys
urls_of-subscribed account webhook [] n = refl
urls_of-subscribed account webhook (key ∷ keys) n = elim (Bool-cases (str_eq key account)) [
  | inl e ↦ rw (e, urls_of-subscribed account webhook keys (suc n)) refl
  | inr e ↦ rw (e, urls_of-subscribed account webhook keys (suc n)) refl
]

server-IsFaithful : IsFaithful server
server-IsFaithful = record {
  unsubscribe_law = λ id s. refl;
  subscribe_law = λ account webhook keys s.
      urls_of-append account s.0 (subscribed webhook keys s.1)
      ∙ ap (λ l. urls_of account s.0 ++ l) (urls_of-subscribed account webhook keys s.1);
}

-- A doubled account, one with an old address, one whose wallet is gone; a wallet is new.
abbrev sub : String → String → String → Subscription
sub id key url = record { subscription_id = id; account = key; reaction_url = url }

abbrev stale : Server
stale = (sub "1" "GA" "new" ∷ sub "2" "GB" "old" ∷ sub "3" "GA" "new" ∷ sub "4" "GC" "new" ∷ [], 0)

abbrev alice : Row
alice = record {
  row_id = 3;
  user_id = 7;
  public_key = "GA";
  default_wallet = 0;
  free_wallet = 1;
  use_pin = 0;
  secret_key = some "SA";
  seed_key = none;
  wallet_crypto_v2 = none;
  need_delete = 0;
  balances = none;
  balances_event_id = "0";
  last_event_id = "5";
  balances_updated_at = none;
}

abbrev wallet : String → Row
wallet key = record alice { public_key = key }

abbrev wallets : List Row
wallets = wallet "GA" ∷ wallet "GB" ∷ wallet "GA" ∷ wallet "GD" ∷ wallet "old" ∷ []

synced :
    ids (sync_subscriptions server "https" "new" wallets stale).0
    ≡ "id" ∷ "id-next" ∷ "id-next" ∷ []
unfolding sync_subscriptions sync_keys subscribe_batches to_resubscribe subscribed_accounts distinct
    not_subscribed unsubscribe_all to_delete
synced = refl

sync_subscriptions-synced_example :
    urls_of "GA" (sync_subscriptions server "https" "new" wallets stale).0 ≡ "new" ∷ []
sync_subscriptions-synced_example =
    sync_subscriptions-synced server server-IsFaithful "GA" "https" "new" wallets stale
      (refl, (refl, (refl, (refl, tt)))) refl
