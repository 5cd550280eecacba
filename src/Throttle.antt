-- ===== src/Throttle.antt =====
-- bot/middleware/throttling.py: ThrottleManager.throttle. The clock counts ticks, and a rate of so
-- many ticks is the least distance of two calls. The hash commands of Redis are an interface; the
-- ids in a bucket's name are given as texts.
pub mod Burst
use Prim.Native.String.{◌++◌}
use my_mtlwallet_bot.Prelude.{
  ℕ, suc, ◌+◌, ◌-◌, String, ◌≡◌, Bool, true, false, ◌||◌, Option, none, some, leb, ltb, ◌==◌,
  if◌then◌else◌,
}

-- `now - called`
pub data ℤ : Type 0 where
  pos negsuc : ℕ → ℤ

abbrev pub minus : ℕ → ℕ → ℤ
minus now called = if leb called now then pos (now - called) else negsuc (called - now - 1)

-- The fields of `bucket_keys`.
pub record Bucket : Type 0 where
  pub rate_limit : Option ℕ
  pub delta : Option ℤ
  pub last_call : Option ℕ
  pub exceeded_count : Option ℕ

-- HMGET of the four fields, and HSET of all of them.
pub record Buckets : Type 1 where
  pub Db : Type 0
  pub hmget : String → Db → Bucket
  pub hset : String → Bucket → Db → Db
  pub hmget_hset : (name : String) (b : Bucket) (db : Db) → hmget name (hset name b db) ≡ b

unfoldable pub bucket_name : String → Option String → String → String
bucket_name key none chat_id = "throttle_" ++ key ++ "_" ++ chat_id
bucket_name key (some user_id) chat_id = "throttle_" ++ key ++ "_" ++ user_id ++ "_" ++ chat_id

abbrev pub or_default : ℕ → Option ℕ → ℕ
or_default default none = default
or_default default (some n) = n

-- `delta >= rate or delta <= 0`
unfoldable pub allowed : ℕ → ℕ → ℕ → Bool
allowed rate now called = leb rate (now - called) || leb now called

unfoldable pub next_bucket : ℕ → ℕ → Bucket → Bucket
unfolding allowed
next_bucket rate now b =
    let called = or_default now b.last_call in
    record {
      rate_limit = some rate;
      delta = some (minus now called);
      last_call = some now;
      exceeded_count =
          some (if allowed rate now called then 1 else or_default 0 b.exceeded_count + 1);
    }

module _ (store : Buckets) where
  open store use {Db, hmget, hset}

  -- throttle; false is the exception Throttled
  unfoldable pub throttle : String → ℕ → Option String → String → ℕ → Db → Bool × Db
  throttle key rate user_id chat_id now db =
      let name = bucket_name key user_id chat_id in
      let b = hmget name db in
      if rate == 0
      then (true, db)
      else (allowed rate now (or_default now b.last_call), hset name (next_bucket rate now b) db)
