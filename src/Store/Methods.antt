-- ===== src/Store/Methods.antt =====
-- The methods of `NotificationRedisStore` in
-- bot/infrastructure/services/notification_redis_store.py. A method runs its Lua script, or, where
-- the server answers EVAL with "unknown command", the WATCH loop over the rounds in which other
-- clients interfere. An error of another kind leaves the method, and is not modelled.
pub mod Correct
use my_mtlwallet_bot.Prelude.{
  ℕ, ◌+◌, Bool, true, false, Option, none, some, List, leb, ◌==◌, not, if◌then◌else◌,
}
use my_mtlwallet_bot.Notification.{BlockchainNotification}
use my_mtlwallet_bot.Redis.{Redis, hold, hold_generation, pending, due}
use my_mtlwallet_bot.Store.Scripts
use my_mtlwallet_bot.Store.Scripts.{Accepted}
use my_mtlwallet_bot.Store.Transaction.{Plan, Round, transact, effect_point}
use my_mtlwallet_bot.Store.Fallback.{
  touch_without_lua, release_hold_generation_without_lua, release_due_hold_without_lua,
  enqueue_without_lua, claim_accept_without_lua, clear_immediate_due_without_lua,
  acknowledge_without_lua, acknowledge_if_lock_owned_without_lua, release_lock_without_lua,
  renew_lock_without_lua,
}

pub data Result (A : Type 0) : Type 0 where
  ok : A → Result A
  value_error : Result A

pub record StoreConfig : Type 0 where
  pub hold_seconds : ℕ
  pub lock_ttl_seconds : ℕ
  pub dedupe_ttl_seconds : ℕ

-- `__init__`; a negative argument is refused as 0 is.
unfoldable pub init : ℕ → ℕ → ℕ → Result StoreConfig
init hold_seconds lock_ttl_seconds dedupe_ttl_seconds =
    if leb hold_seconds 0
    then value_error
    else if leb lock_ttl_seconds 0
    then value_error
    else if leb dedupe_ttl_seconds 0
    then value_error
    else ok (record {
      hold_seconds = hold_seconds;
      lock_ttl_seconds = lock_ttl_seconds;
      dedupe_ttl_seconds = dedupe_ttl_seconds;
    })

-- Whether the server knows EVAL; if not, what other clients do during the loop.
pub data Server (S : Type 0) : Type 0 where
  eval : Server S
  no_eval : List (Round S) → Server S

module _ {S A : Type 0} where
  -- `try: eval(script) except ResponseError: return await self._..._without_lua(...)`
  unfoldable pub atomically : Server S → (S → A × S) → (S → Plan S A) → S → A × S
  atomically eval script plan s = script s
  atomically (no_eval rounds) script plan s = transact plan rounds s

  -- The state in which the method takes effect.
  unfoldable pub taken_at : Server S → (S → Plan S A) → S → S
  taken_at eval plan s = s
  taken_at (no_eval rounds) plan s = effect_point plan rounds s

module _ (r : Redis) (config : StoreConfig) (server : Server (Redis.Db r)) where
  open r use {Db, get, llen, lindex_head, del, zrem}
  open config use {hold_seconds, lock_ttl_seconds, dedupe_ttl_seconds}

  unfoldable pub touch_with_generation : ℕ → ℕ → Db → (ℕ × ℕ) × Db
  touch_with_generation user now =
      let hold_until = now + hold_seconds in
      atomically server (Scripts.touch_hold r user hold_until hold_seconds)
        (touch_without_lua r user hold_until hold_seconds)

  unfoldable pub touch : ℕ → ℕ → Db → ℕ × Db
  touch user now db =
      let ((until, generation), db') = touch_with_generation user now db in (until, db')

  -- `release`: an unconditional MULTI of three writes
  unfoldable pub release : ℕ → Db → Db
  release user db = zrem due user (del (hold_generation user) (del (hold user) db))

  unfoldable pub release_due_hold_if_unchanged : ℕ → ℕ → ℕ → Db → Bool × Db
  release_due_hold_if_unchanged user expected_hold_until now =
      atomically server (Scripts.release_due_hold r user expected_hold_until now)
        (release_due_hold_without_lua r user expected_hold_until now)

  unfoldable pub release_hold_if_unchanged : ℕ → ℕ → ℕ → Db → Bool × Db
  unfolding release_due_hold_if_unchanged
  release_hold_if_unchanged = release_due_hold_if_unchanged

  unfoldable pub release_hold_generation_if_unchanged : ℕ → ℕ → ℕ → Db → Bool × Db
  release_hold_generation_if_unchanged user expected_generation now =
      atomically server (Scripts.release_hold_generation r user expected_generation now)
        (release_hold_generation_without_lua r user expected_generation now)

  unfoldable pub hold_until : ℕ → Db → Option ℕ
  hold_until user db = get (hold user) db

  both : Option ℕ → Option ℕ → Option (ℕ × ℕ)
  both (some until) (some generation) = some (until, generation)
  both _ _ = none

  unfoldable pub hold_snapshot : ℕ → Db → Option (ℕ × ℕ)
  unfolding both
  hold_snapshot user db = both (get (hold user) db) (get (hold_generation user) db)

  unfoldable pub enqueue : ℕ → BlockchainNotification → Db → Result Bool × Db
  enqueue user n db =
      if not (user == n.user_id)
      then (value_error, db)
      else (let (reply, db') =
            atomically server (Scripts.enqueue_script r user n dedupe_ttl_seconds)
              (enqueue_without_lua r user n dedupe_ttl_seconds) db in
          (ok reply, db'))

  unfoldable pub claim_accept : ℕ → BlockchainNotification → ℕ → Db → Result Accepted × Db
  claim_accept user n now db =
      if not (user == n.user_id)
      then (value_error, db)
      else (let (reply, db') =
            atomically server (Scripts.claim_accept_script r user n dedupe_ttl_seconds now)
              (claim_accept_without_lua r user n dedupe_ttl_seconds now) db in
          (ok reply, db'))

  unfoldable pub clear_immediate_due_if_empty_and_lock_owned : ℕ → ℕ → ℕ → Db → Bool × Db
  clear_immediate_due_if_empty_and_lock_owned user token now =
      atomically server (Scripts.clear_immediate_due r user token now)
        (clear_immediate_due_without_lua r user token now)

  -- `from_json` reads back what `to_json` wrote
  unfoldable pub peek : ℕ → Db → Option BlockchainNotification
  peek user db = lindex_head (pending user) db

  unfoldable pub pending_count : ℕ → Db → ℕ
  pending_count user db = llen (pending user) db

  unfoldable pub acknowledge : ℕ → BlockchainNotification → Db → Bool × Db
  acknowledge user expected_head =
      atomically server (Scripts.acknowledge_head r user expected_head)
        (acknowledge_without_lua r user expected_head)

  unfoldable pub acknowledge_if_lock_owned : ℕ → BlockchainNotification → ℕ → Db → Bool × Db
  acknowledge_if_lock_owned user expected_head token =
      atomically server (Scripts.acknowledge_head_if_lock_owned r user expected_head token)
        (acknowledge_if_lock_owned_without_lua r user expected_head token)

  unfoldable pub acquire_lock : ℕ → ℕ → Db → Bool × Db
  acquire_lock user token = Scripts.acquire_lock r user token lock_ttl_seconds

  unfoldable pub release_lock : ℕ → ℕ → Db → Bool × Db
  release_lock user token =
      atomically server (Scripts.release_lock_script r user token)
        (release_lock_without_lua r user token)

  unfoldable pub renew_lock : ℕ → ℕ → Db → Bool × Db
  renew_lock user token =
      atomically server (Scripts.renew_lock_script r user token lock_ttl_seconds)
        (renew_lock_without_lua r user token lock_ttl_seconds)
