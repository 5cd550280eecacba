-- ===== src/Store/Fallback.antt =====
-- The `_..._without_lua` methods of bot/infrastructure/services/notification_redis_store.py, as one
-- pass each of the WATCH loop: what the pass reads decides what it queues for EXEC.
pub mod Linear
use my_mtlwallet_bot.Prelude.{
  ℕ, ◌+◌, max, Bool, true, false, ◌||◌, not, Option, none, some, List, [], ◌∷◌, ltb, leb, ◌==◌,
  if◌then◌else◌, is_some,
}
use my_mtlwallet_bot.Notification.{BlockchainNotification, idempotency_key}
use my_mtlwallet_bot.Redis.{
  Redis, Key, hold, hold_generation, hold_generation_sequence, pending, dedupe, pending_ids,
  flush_lock, due, next_number,
}
use my_mtlwallet_bot.Store.Scripts.{
  Accepted, duplicate, queued, direct, holds_number, is_head, is_active,
}
use my_mtlwallet_bot.Store.Transaction.{Plan, refuse, commit}

-- `int(existing) if existing is not None else 0`
abbrev pub number_or_zero : Option ℕ → ℕ
number_or_zero none = 0
number_or_zero (some n) = n

-- `due_at is None or float(due_at) > now`
abbrev pub is_not_due : Option ℕ → ℕ → Bool
is_not_due none now = true
is_not_due (some due_at) now = ltb now due_at

-- `hold_until is None or int(hold_until) <= now`
abbrev pub is_inactive : Option ℕ → ℕ → Bool
is_inactive none now = true
is_inactive (some hold_until) now = leb hold_until now

-- The keys that each method watches.
abbrev pub touch_watched : ℕ → List Key
touch_watched user = hold user ∷ hold_generation_sequence ∷ []

abbrev pub release_watched : ℕ → List Key
release_watched user = hold user ∷ hold_generation user ∷ due ∷ pending user ∷ []

abbrev pub enqueue_watched : ℕ → List Key
enqueue_watched user = dedupe user ∷ pending_ids user ∷ []

abbrev pub claim_watched : ℕ → List Key
claim_watched user = dedupe user ∷ pending_ids user ∷ hold user ∷ due ∷ []

abbrev pub clear_watched : ℕ → List Key
clear_watched user = pending user ∷ hold user ∷ due ∷ flush_lock user ∷ []

abbrev pub acknowledge_watched : ℕ → List Key
acknowledge_watched user = pending user ∷ pending_ids user ∷ []

abbrev pub owned_acknowledge_watched : ℕ → List Key
owned_acknowledge_watched user = pending user ∷ pending_ids user ∷ flush_lock user ∷ []

abbrev pub lock_watched : ℕ → List Key
lock_watched user = flush_lock user ∷ []

module _ (r : Redis) where
  open r use {
    Db, get, llen, lindex_head, sismember, zscore, set_ex, set, del, expire, rpush, lpop, sadd,
    srem, zadd, zrem,
  }

  -- _touch_without_lua
  unfoldable pub touch_without_lua : ℕ → ℕ → ℕ → Db → Plan Db (ℕ × ℕ)
  touch_without_lua user hold_until ttl db =
      let actual_hold = max hold_until (number_or_zero (get (hold user) db)) in
      let generation = next_number (get hold_generation_sequence db) in
      commit
        (λ db'. zadd due actual_hold user (
          set hold_generation_sequence generation (
            set_ex (hold_generation user) generation ttl (set_ex (hold user) actual_hold ttl db'))))
        (actual_hold, generation)

  -- What the two release methods queue.
  abbrev pub queue_release : ℕ → ℕ → ℕ → Db → Db
  queue_release user now pending_count db' =
      let dropped = del (hold_generation user) (del (hold user) db') in
      if not (pending_count == 0) then zadd due now user dropped else zrem due user dropped

  -- _release_hold_generation_if_unchanged_without_lua
  unfoldable pub release_hold_generation_without_lua : ℕ → ℕ → ℕ → Db → Plan Db Bool
  release_hold_generation_without_lua user expected_generation now db =
      if not (holds_number (get (hold_generation user) db) expected_generation)
      then refuse false
      else commit (queue_release user now (llen (pending user) db)) true

  -- _release_due_hold_if_unchanged_without_lua
  unfoldable pub release_due_hold_without_lua : ℕ → ℕ → ℕ → Db → Plan Db Bool
  release_due_hold_without_lua user expected_hold_until now db =
      if not (holds_number (get (hold user) db) expected_hold_until)
      then refuse false
      else commit (queue_release user now (llen (pending user) db)) true

  -- _enqueue_without_lua
  unfoldable pub enqueue_without_lua : ℕ → BlockchainNotification → ℕ → Db → Plan Db Bool
  enqueue_without_lua user n ttl db =
      if sismember (dedupe user) (idempotency_key n) db
        || sismember (pending_ids user) (idempotency_key n) db
      then refuse false
      else commit
          (λ db'. rpush (pending user) n (
            sadd (pending_ids user) (idempotency_key n)
              (expire (dedupe user) ttl (sadd (dedupe user) (idempotency_key n) db'))))
          true

  -- _claim_accept_without_lua
  unfoldable pub claim_accept_without_lua :
      ℕ → BlockchainNotification → ℕ → ℕ → Db → Plan Db Accepted
  claim_accept_without_lua user n ttl now db =
      if sismember (dedupe user) (idempotency_key n) db
        || sismember (pending_ids user) (idempotency_key n) db
      then refuse duplicate
      else (let hold_until = get (hold user) db in
          commit
            (λ db'.
              let pushed = rpush (pending user) n (
                sadd (pending_ids user) (idempotency_key n)
                  (expire (dedupe user) ttl (sadd (dedupe user) (idempotency_key n) db'))) in
              if is_inactive hold_until now then zadd due now user pushed else pushed)
            (if is_active hold_until now then queued else direct))

  -- _clear_immediate_due_if_empty_and_lock_owned_without_lua
  unfoldable pub clear_immediate_due_without_lua : ℕ → ℕ → ℕ → Db → Plan Db Bool
  clear_immediate_due_without_lua user token now db =
      if not (holds_number (get (flush_lock user) db) token)
      then refuse false
      else if not (llen (pending user) db == 0)
      then refuse false
      else if is_some (get (hold user) db)
      then refuse false
      else if is_not_due (zscore due user db) now
      then refuse false
      else commit (λ db'. zrem due user db') true

  -- _acknowledge_without_lua
  unfoldable pub acknowledge_without_lua : ℕ → BlockchainNotification → Db → Plan Db Bool
  acknowledge_without_lua user n db =
      if not (is_head (lindex_head (pending user) db) n)
      then refuse false
      else commit (λ db'. srem (pending_ids user) (idempotency_key n) (lpop (pending user) db'))
          true

  -- _acknowledge_if_lock_owned_without_lua
  unfoldable pub acknowledge_if_lock_owned_without_lua :
      ℕ → BlockchainNotification → ℕ → Db → Plan Db Bool
  acknowledge_if_lock_owned_without_lua user n token db =
      if not (holds_number (get (flush_lock user) db) token)
        || not (is_head (lindex_head (pending user) db) n)
      then refuse false
      else commit (λ db'. srem (pending_ids user) (idempotency_key n) (lpop (pending user) db'))
          true

  -- _release_lock_without_lua
  unfoldable pub release_lock_without_lua : ℕ → ℕ → Db → Plan Db Bool
  release_lock_without_lua user token db =
      if not (holds_number (get (flush_lock user) db) token)
      then refuse false
      else commit (λ db'. del (flush_lock user) db') true

  -- _renew_lock_without_lua
  unfoldable pub renew_lock_without_lua : ℕ → ℕ → ℕ → Db → Plan Db Bool
  renew_lock_without_lua user token ttl db =
      if not (holds_number (get (flush_lock user) db) token)
      then refuse false
      else commit (λ db'. expire (flush_lock user) ttl db') true
