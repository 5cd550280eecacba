-- ===== src/Notification.antt =====
-- bot/core/models/blockchain_notification.py: the event that the queue holds, and its identity.
-- Python integers that the code keeps non-negative are ℕ; a float is carried as its JSON text.
use Prim.Native.String.{◌++◌, slice}
use mathlib.Core.List.{List-discrete}
use native.Mathlib.Decide.{ℕ_discrete}
use text.Mathlib.Text.{◌==◌ as str_eq}
use my_mtlwallet_bot.Prelude.{
  ℕ, zero, suc, ◌+◌, ◌/◌, ◌%◌, String, ◌≡◌, ◌↔◌, Bool, true, List, arith, ltb, decided,
  if◌then◌else◌, eq_iff, Bool-cases, inl, inr,
}

pub data Primitive : Type 0 where
  string : String → Primitive
  int : ℕ → Primitive
  float : String → Primitive
  bool : Bool → Primitive
  null : Primitive

pub record BlockchainNotification : Type 0 where
  pub notification_id : String
  pub user_id : ℕ
  pub event_type : String
  pub message : String
  pub created_at : ℕ
  pub transaction_hash : String
  pub event_index : ℕ
  pub payload : List (String × Primitive)

pub String-discrete : Discrete String
String-discrete s t = elim (Bool-cases (str_eq s t)) [
  | inl e ↦ yes ((eq_iff s t).0 e)
  | inr e ↦ no (λ p. cc (e, (eq_iff s t).1 p))
]

pub Primitive-discrete : Discrete Primitive
Primitive-discrete = hlevel (ℕ_discrete, String-discrete)

pub BlockchainNotification-discrete : Discrete BlockchainNotification
BlockchainNotification-discrete =
    hlevel (ℕ_discrete, String-discrete, Primitive-discrete, List-discrete)

-- `str(n)`: the decimal digits, the last one first; `n` bounds their number.
digits : ℕ → ℕ → String → String
digits zero n rest = rest
digits (suc fuel) n rest =
    let shown = slice "0123456789" (n % 10) (n % 10 + 1) ++ rest in
    let more = digits fuel (n / 10) shown in if ltb n 10 then shown else more

pub str : ℕ → String
unfolding digits
str n = digits (suc n) n ""

-- `_build_idempotency_key`.
pub idempotency_key : BlockchainNotification → String
unfolding str
idempotency_key n =
    n.transaction_hash ++ ":" ++ n.event_type ++ ":" ++ str n.event_index ++ ":" ++ str n.user_id

pub idempotency_key_same :
    (m n : BlockchainNotification)
    → m.transaction_hash ≡ n.transaction_hash
    → m.event_type ≡ n.event_type
    → m.event_index ≡ n.event_index
    → m.user_id ≡ n.user_id
    → idempotency_key m ≡ idempotency_key n
unfolding idempotency_key
idempotency_key_same m n hash kind index user = cc

-- Comparing `to_json` texts: the printer is deterministic and shows every field, so two texts are
-- equal exactly when the notifications are.
unfoldable pub same_json : BlockchainNotification → BlockchainNotification → Bool
same_json m n = decided (BlockchainNotification-discrete m n)

pub same_json_iff : (m n : BlockchainNotification) → (same_json m n ≡ true) ↔ (m ≡ n)
unfolding same_json
same_json_iff m n = ground arith
