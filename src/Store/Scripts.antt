-- ===== src/Store/Scripts.antt =====
-- The Lua scripts of bot/infrastructure/services/notification_redis_store.py, over the commands of
-- a Redis server. A script is atomic: it returns its reply beside the new database.
use my_mtlwallet_bot.Prelude.{
  ℕ, Bool, true, false, ◌||◌, not, Option, none, some, ltb, leb, ◌==◌, if◌then◌else◌, is_some,
}
use my_mtlwallet_bot.Notification.{BlockchainNotification, idempotency_key, same_json}
use my_mtlwallet_bot.Redis.{
  Redis, hold, hold_generation, hold_generation_sequence, pending, dedupe, pending_ids, flush_lock,
  due, next_number,
}

-- The replies of `_CLAIM_ACCEPT`.
pub data Accepted : Type 0 where
  duplicate queued direct : Accepted

-- `existing and tonumber(existing) > requested`
abbrev pub later_of : Option ℕ → ℕ → ℕ
later_of none requested = requested
later_of (some existing) requested = if ltb requested existing then existing else requested

-- `GET key ~= ARGV` on a number that the key may lack.
abbrev pub holds_number : Option ℕ → ℕ → Bool
holds_number none n = false
holds_number (some m) n = m == n

-- `LINDEX key 0 ~= ARGV`
abbrev pub is_head : Option BlockchainNotification → BlockchainNotification → Bool
is_head none n = false
is_head (some m) n = same_json m n

-- `hold_until and tonumber(hold_until) > now`
abbrev pub is_active : Option ℕ → ℕ → Bool
is_active none now = false
is_active (some hold_until) now = ltb now hold_until

-- `due_at and tonumber(due_at) <= now`
abbrev pub is_due : Option ℕ → ℕ → Bool
is_due none now = false
is_due (some due_at) now = leb due_at now

module _ (r : Redis) where
  open r use {
    Db, get, llen, lindex_head, sismember, zscore, set_ex, set_nx_ex, del, expire, incr, rpush,
    lpop, sadd, srem, zadd, zrem,
  }

  -- _TOUCH_HOLD
  unfoldable pub touch_hold : ℕ → ℕ → ℕ → Db → (ℕ × ℕ) × Db
  touch_hold user hold_until ttl db =
      let requested = later_of (get (hold user) db) hold_until in
      let db₁ = zadd due requested user (set_ex (hold user) requested ttl db) in
      let db₂ = incr hold_generation_sequence db₁ in
      let generation = next_number (get hold_generation_sequence db₁) in
      ((requested, generation), set_ex (hold_generation user) generation ttl db₂)

  -- The tail that the two release scripts share: drop the hold and reschedule pending work.
  unfoldable pub drop_hold : ℕ → ℕ → Db → Db
  drop_hold user now db =
      let db' = del (hold_generation user) (del (hold user) db) in
      if ltb 0 (llen (pending user) db') then zadd due now user db' else zrem due user db'

  -- _RELEASE_DUE_HOLD_IF_UNCHANGED
  unfoldable pub release_due_hold : ℕ → ℕ → ℕ → Db → Bool × Db
  unfolding drop_hold
  release_due_hold user expected_hold_until now db =
      if holds_number (get (hold user) db) expected_hold_until
      then (true, drop_hold user now db)
      else (false, db)

  -- _RELEASE_HOLD_GENERATION_IF_UNCHANGED
  unfoldable pub release_hold_generation : ℕ → ℕ → ℕ → Db → Bool × Db
  unfolding drop_hold
  release_hold_generation user expected_generation now db =
      if holds_number (get (hold_generation user) db) expected_generation
      then (true, drop_hold user now db)
      else (false, db)

  abbrev pub is_known : ℕ → BlockchainNotification → Db → Bool
  is_known user n db =
      sismember (dedupe user) (idempotency_key n) db
      || sismember (pending_ids user) (idempotency_key n) db

  -- The four writes that _ENQUEUE and _CLAIM_ACCEPT share.
  unfoldable pub append_pending : ℕ → BlockchainNotification → ℕ → Db → Db
  append_pending user n ttl db = rpush (pending user) n (
      sadd (pending_ids user) (idempotency_key n)
        (expire (dedupe user) ttl (sadd (dedupe user) (idempotency_key n) db)))

  -- _ENQUEUE
  unfoldable pub enqueue_script : ℕ → BlockchainNotification → ℕ → Db → Bool × Db
  unfolding append_pending
  enqueue_script user n ttl db =
      if is_known user n db then (false, db) else (true, append_pending user n ttl db)

  -- _CLAIM_ACCEPT
  unfoldable pub claim_accept_script : ℕ → BlockchainNotification → ℕ → ℕ → Db → Accepted × Db
  unfolding append_pending
  claim_accept_script user n ttl now db =
      if is_known user n db
      then (duplicate, db)
      else (let db' = append_pending user n ttl db in
          if is_active (get (hold user) db') now
          then (queued, db')
          else (direct, zadd due now user db'))

  -- _ACKNOWLEDGE_HEAD
  unfoldable pub acknowledge_head : ℕ → BlockchainNotification → Db → Bool × Db
  acknowledge_head user n db =
      if is_head (lindex_head (pending user) db) n
      then (true, srem (pending_ids user) (idempotency_key n) (lpop (pending user) db))
      else (false, db)

  -- _ACKNOWLEDGE_HEAD_IF_LOCK_OWNED
  unfoldable pub acknowledge_head_if_lock_owned : ℕ → BlockchainNotification → ℕ → Db → Bool × Db
  unfolding acknowledge_head
  acknowledge_head_if_lock_owned user n token db =
      if holds_number (get (flush_lock user) db) token
      then acknowledge_head user n db
      else (false, db)

  -- _CLEAR_IMMEDIATE_DUE_IF_EMPTY_AND_LOCK_OWNED
  unfoldable pub clear_immediate_due : ℕ → ℕ → ℕ → Db → Bool × Db
  clear_immediate_due user token now db =
      if not (holds_number (get (flush_lock user) db) token)
      then (false, db)
      else if not (llen (pending user) db == 0) || is_some (get (hold user) db)
      then (false, db)
      else if is_due (zscore due user db) now
      then (true, zrem due user db)
      else (false, db)

  -- _RELEASE_LOCK
  unfoldable pub release_lock_script : ℕ → ℕ → Db → Bool × Db
  release_lock_script user token db =
      if holds_number (get (flush_lock user) db) token
      then (true, del (flush_lock user) db)
      else (false, db)

  -- _RENEW_LOCK
  unfoldable pub renew_lock_script : ℕ → ℕ → ℕ → Db → Bool × Db
  renew_lock_script user token ttl db =
      if holds_number (get (flush_lock user) db) token
      then (true, expire (flush_lock user) ttl db)
      else (false, db)

  -- `SET key token NX EX ttl`, the command of `acquire_lock`
  unfoldable pub acquire_lock : ℕ → ℕ → ℕ → Db → Bool × Db
  acquire_lock user token ttl db = set_nx_ex (flush_lock user) token ttl db
