-- ===== src/Tests/Throttling.antt =====
-- The throttle on concrete inputs, with its hashes in memory.
use text.Mathlib.Text.{◌==◌ as str_eq}
use my_mtlwallet_bot.Prelude.{
  ◌≡◌, refl, String, none, some, [], ◌∷◌, All, arith, eq_refl, if◌then◌else◌,
}
use my_mtlwallet_bot.Throttle.{Bucket, Buckets, bucket_name}
use my_mtlwallet_bot.Throttle.Burst.{IsRefused, calls, calls-IsRefused}

abbrev hashes : Buckets
hashes = record {
  Db = String → Bucket;
  hmget = λ name db. db name;
  hset = λ name b db other. if str_eq other name then b else db other;
  hmget_hset = λ name b db. rw (eq_refl name) refl;
}

-- Every bucket was called at 100, and let it pass.
abbrev called_at_100 : String → Bucket
called_at_100 name = record {
  rate_limit = some 10;
  delta = none;
  last_call = some 100;
  exceeded_count = some 1;
}

calls-IsRefused_example :
    let (replies, db) =
      calls hashes "message" 10 (some "7") "7" (105 ∷ 112 ∷ 121 ∷ []) called_at_100 in
    All IsRefused replies
    × ((hashes.hmget (bucket_name "message" (some "7") "7") db).exceeded_count ≡ some 4)
calls-IsRefused_example =
    calls-IsRefused hashes "message" 10 (some "7") "7" (omega arith) (105 ∷ 112 ∷ 121 ∷ []) 100 1
      called_at_100 refl refl
      ((omega arith, omega arith, ((omega arith, omega arith, ((omega arith, omega arith, tt))))))
