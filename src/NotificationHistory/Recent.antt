-- ===== src/NotificationHistory/Recent.antt =====
-- What the history keeps: a bounded list of recent records per user, each event once.
use my_mtlwallet_bot.Prelude.{
  ℕ, zero, suc, ◌≤◌, ◌≡◌, refl, ap, true, false, List, [], ◌∷◌, ◌==◌, length, take, Bool-cases,
  Option-cases, inl, inr, All, length-take-le,
}
use my_mtlwallet_bot.Prelude.Dict
use my_mtlwallet_bot.Prelude.Dict.{get-put, get-del, get_put_other, get_del_other}
use my_mtlwallet_bot.NotificationHistory.{
  NotificationRecord, History, is_recent, keep_recent, store_kept, cleanup_user, records_of,
  get_recent,
}

module _ {Float : Type 0} where
  stored :
      (user : ℕ) (xs : List (NotificationRecord Float)) (h : History Float)
      → records_of user (store_kept user xs h) ≡ xs
  stored user [] h = rw (get-del user h) refl
  stored user (x ∷ xs) h = rw (get-put user (x ∷ xs) h) refl

  stored_other :
      (other user : ℕ) (xs : List (NotificationRecord Float)) (h : History Float)
      → (user == other) ≡ false
      → records_of other (store_kept user xs h) ≡ records_of other h
  stored_other other user [] h e = rw (get_del_other other user h e) refl
  stored_other other user (x ∷ xs) h e = rw (get_put_other other user (x ∷ xs) h e) refl

  module _ (ttl now user : ℕ) (h : History Float) where
    -- Cleaning filters the user's own records, and leaves those of the others.
    pub cleanup_user-kept :
        records_of user (cleanup_user ttl now user h) ≡ keep_recent ttl now (records_of user h)
    unfolding cleanup_user keep_recent
    cleanup_user-kept = elim (Option-cases (Dict.get user h)) [
      | inl e ↦ rw (e, cleanup_user, e) refl
      | inr (records, e) ↦ rw (e, cleanup_user) (stored user (keep_recent ttl now records) h)
    ]

    pub cleanup_user_other :
        (other : ℕ)
        → (user == other) ≡ false
        → records_of other (cleanup_user ttl now user h) ≡ records_of other h
    unfolding cleanup_user
    cleanup_user_other other d = elim (Option-cases (Dict.get user h)) [
      | inl e ↦ rw (e, cleanup_user) refl
      | inr (records, e) ↦
          rw (e, cleanup_user) (stored_other other user (keep_recent ttl now records) h d)
    ]

  abbrev pub IsRecent : ℕ → ℕ → NotificationRecord Float → Type 0
  IsRecent ttl now x = is_recent ttl now x ≡ true

  keep_recent-IsRecent :
      (ttl now : ℕ) (xs : List (NotificationRecord Float))
      → All (IsRecent ttl now) (keep_recent ttl now xs)
  unfolding keep_recent
  keep_recent-IsRecent ttl now [] = tt
  keep_recent-IsRecent ttl now (x ∷ xs) = elim (Bool-cases (is_recent ttl now x)) [
    | inl e ↦ rw (e, keep_recent) (e, keep_recent-IsRecent ttl now xs)
    | inr e ↦ rw (e, keep_recent) (keep_recent-IsRecent ttl now xs)
  ]

  take-All :
      (P : NotificationRecord Float → Type 0) (n : ℕ) (xs : List (NotificationRecord Float))
      → All P xs
      → All P (take n xs)
  take-All P zero xs h = tt
  take-All P (suc n) [] h = tt
  take-All P (suc n) (x ∷ xs) h = (h.0, take-All P n xs h.1)

  -- get_recent answers the first records of those within the TTL, at most as many as asked for,
  -- and none that has expired.
  pub get_recent-IsRecent :
      (ttl now user limit : ℕ) (h : History Float)
      → let (answer, h') = get_recent ttl now user limit h in
        (answer ≡ take limit (keep_recent ttl now (records_of user h)))
        × (length answer ≤ limit)
        × All (IsRecent ttl now) answer
  unfolding get_recent
  get_recent-IsRecent ttl now user limit h =
      let e = cleanup_user-kept ttl now user h in
      (
        ap (take limit) e,
        length-take-le limit _,
        rw e (
            take-All (IsRecent ttl now) limit _ (keep_recent-IsRecent ttl now (records_of user h))),
      )
