-- ===== src/Throttle/Burst.antt =====
-- Calls that follow each other too fast are all refused.
use my_mtlwallet_bot.Prelude.{
  ℕ, ◌+◌, ◌<◌, String, ◌≡◌, ◌≢◌, refl, ap, ◌∙◌, Bool, false, Option, some, List, [], ◌∷◌, arith,
  length, All, ◌==◌,
}
use my_mtlwallet_bot.Throttle.{Bucket, Buckets, bucket_name, allowed, next_bucket, throttle}

-- Each call comes after the one before it, by less than the rate.
abbrev pub IsBurst : ℕ → ℕ → List ℕ → Type 0
IsBurst rate called [] = Unit
IsBurst rate called (now ∷ later) = (called < now) × (now < called + rate) × IsBurst rate now later

abbrev pub IsRefused : Bool → Type 0
IsRefused reply = reply ≡ false

module _ (store : Buckets) (key : String) (rate : ℕ) (user_id : Option String)
    (chat_id : String) where
  abbrev bucket_of : store.Db → Bucket
  bucket_of db = store.hmget (bucket_name key user_id chat_id) db

  -- The replies to a sequence of calls, and what they leave.
  pub calls : List ℕ → store.Db → List Bool × store.Db
  calls [] db = ([], db)
  calls (now ∷ later) db =
      let (reply, db') = throttle store key rate user_id chat_id now db in
      let (replies, db'') = calls later db' in (reply ∷ replies, db'')

  too_soon : (called now : ℕ) → called < now → now < called + rate → allowed rate now called ≡ false
  unfolding allowed
  too_soon called now after soon = ground arith

  -- One call too soon after the last one.
  refuses :
      rate ≢ 0
      → (called now count : ℕ) (db : store.Db) → (bucket_of db).last_call ≡ some called
      → (bucket_of db).exceeded_count ≡ some count
      → called < now
      → now < called + rate
      → let (reply, db') = throttle store key rate user_id chat_id now db in
        (reply ≡ false)
        × ((bucket_of db').last_call ≡ some now)
        × ((bucket_of db').exceeded_count ≡ some (count + 1))
  unfolding throttle next_bucket
  refuses h called now count db last exceeded after soon =
      let limited : (rate == 0) ≡ false = ground arith in
      let early : allowed rate now called ≡ false = too_soon called now after soon in
      rw (limited, throttle, store.hmget_hset, last, exceeded, early) (refl, refl, refl)

  -- After a call of a throttled bucket, calls that each come after the one before by less than
  -- the rate are all refused, however long they go on, and the count of exceeded calls grows by
  -- one with each.
  pub calls-IsRefused :
      rate ≢ 0
      → (times : List ℕ) (called count : ℕ) (db : store.Db) → (bucket_of db).last_call ≡ some called
      → (bucket_of db).exceeded_count ≡ some count
      → IsBurst rate called times
      → let (replies, db') = calls times db in
        All IsRefused replies × ((bucket_of db').exceeded_count ≡ some (count + length times))
  unfolding calls
  calls-IsRefused h [] called count db last exceeded burst = (tt, exceeded ∙ ap some (omega arith))
  calls-IsRefused h (now ∷ later) called count db last exceeded burst =
      let one = refuses h called now count db last exceeded burst.0 burst.1 in
      let rest = calls-IsRefused h later now (count + 1) _ one.1 one.2 burst.2 in
      ((one.0, rest.0), rest.1 ∙ ap some (omega arith))
