-- ===== src/NotificationHistory/Bounded.antt =====
-- The history stays within its bound, and holds each event once.
use text.Mathlib.Text.{◌==◌ as str_eq}
use my_mtlwallet_bot.Prelude.{
  ℕ, zero, suc, ◌≤◌, String, ◌≡◌, refl, sym, subst, false, some, List, [], ◌∷◌, ◌==◌, if◌then◌else◌,
  length, take, arith, Bool-cases, Option-cases, inl, inr, length-take-le, eq_iff,
}
use my_mtlwallet_bot.Prelude.Dict.{get-put, get_put_other}
use my_mtlwallet_bot.Notification.{BlockchainNotification}
use my_mtlwallet_bot.NotificationHistory.{
  NotificationRecord, recorded, History, Service, is_recent, keep_recent, cleanup_user,
  cleanup_users, records_of, push, has_id, is_recorded, delivered_record, record_delivered,
  add_delivered, wallet_of, public_key_of, field,
}
use my_mtlwallet_bot.NotificationHistory.Recent.{cleanup_user-kept, cleanup_user_other}

module _ {Float : Type 0} where
  -- How often an event stands in a list.
  abbrev pub count : String → List (NotificationRecord Float) → ℕ
  count wanted [] = 0
  count wanted (x ∷ xs) = let rest = count wanted xs in if has_id wanted x then suc rest else rest

  -- What holds of each user's list.
  pub record IsFit (max_per_user : ℕ) (xs : List (NotificationRecord Float)) : Type 0 where
    pub bounded : length xs ≤ max_per_user
    pub once : (wanted : String) → count wanted xs ≤ 1

  abbrev pub IsWellFormed : ℕ → History Float → Type 0
  IsWellFormed max_per_user h = (user : ℕ) → IsFit max_per_user (records_of user h)

  length-keep_recent :
      (ttl now : ℕ) (xs : List (NotificationRecord Float))
      → length (keep_recent ttl now xs) ≤ length xs
  unfolding keep_recent
  length-keep_recent ttl now [] = omega arith
  length-keep_recent ttl now (x ∷ xs) = elim (Bool-cases (is_recent ttl now x)) [
    | inl e ↦ rw (e, keep_recent) (omega (arith, length-keep_recent ttl now xs))
    | inr e ↦ rw (e, keep_recent) (omega (arith, length-keep_recent ttl now xs))
  ]

  count_cons :
      (wanted : String) (x : NotificationRecord Float) (xs ys : List (NotificationRecord Float))
      → count wanted xs ≤ count wanted ys
      → count wanted (x ∷ xs) ≤ count wanted (x ∷ ys)
  count_cons wanted x xs ys h = elim (Bool-cases (has_id wanted x)) [
    | inl e ↦ rw e (omega arith)
    | inr e ↦ rw e h
  ]

  count_skip :
      (wanted : String) (x : NotificationRecord Float) (xs : List (NotificationRecord Float))
      → count wanted xs ≤ count wanted (x ∷ xs)
  count_skip wanted x xs = elim (Bool-cases (has_id wanted x)) [
    | inl e ↦ rw e (omega arith)
    | inr e ↦ rw e (omega arith)
  ]

  count-keep_recent :
      (ttl now : ℕ) (wanted : String) (xs : List (NotificationRecord Float))
      → count wanted (keep_recent ttl now xs) ≤ count wanted xs
  unfolding keep_recent
  count-keep_recent ttl now wanted [] = omega arith
  count-keep_recent ttl now wanted (x ∷ xs) =
      let ih = count-keep_recent ttl now wanted xs in
      elim (Bool-cases (is_recent ttl now x)) [
        | inl e ↦ rw (e, keep_recent) (count_cons wanted x (keep_recent ttl now xs) xs ih)
        | inr e ↦ let skip = count_skip wanted x xs in rw (e, keep_recent) (omega arith)
      ]

  count-take :
      (n : ℕ) (wanted : String) (xs : List (NotificationRecord Float))
      → count wanted (take n xs) ≤ count wanted xs
  count-take zero wanted xs = omega arith
  count-take (suc n) wanted [] = omega arith
  count-take (suc n) wanted (x ∷ xs) = count_cons wanted x (take n xs) xs (count-take n wanted xs)

  count-is_recorded :
      (wanted : String) (xs : List (NotificationRecord Float))
      → is_recorded wanted xs ≡ false
      → count wanted xs ≡ 0
  unfolding is_recorded
  count-is_recorded wanted [] h = refl
  count-is_recorded wanted (x ∷ xs) h = elim (Bool-cases (has_id wanted x)) [
    | inl e ↦ let g = rw (e, is_recorded) at h in cc
    | inr e ↦ rw e (count-is_recorded wanted xs (rw (e, is_recorded) at h))
  ]

  count_new :
      (own wanted : String) (x : NotificationRecord Float) (xs : List (NotificationRecord Float))
      → x.notification_id ≡ some own
      → is_recorded own xs ≡ false
      → count wanted xs ≤ 1
      → count wanted (x ∷ xs) ≤ 1
  count_new own wanted x xs id fresh h = elim (Bool-cases (str_eq own wanted)) [
    | inl e ↦
        let same = (eq_iff own wanted).0 e in
        let z = subst (λ s. count s xs ≡ 0) same (count-is_recorded own xs fresh) in
        rw (id, e, z) (omega arith)
    | inr e ↦ rw (id, e) h
  ]

  module _ (max_per_user : ℕ) where
    cleanup_user-IsWellFormed :
        (ttl now user : ℕ) (h : History Float)
        → IsWellFormed max_per_user h
        → IsWellFormed max_per_user (cleanup_user ttl now user h)
    cleanup_user-IsWellFormed ttl now user h fit other = elim (Bool-cases (user == other)) [
      | inl e ↦
          let same : user ≡ other = ground arith in
          let kept = keep_recent ttl now (records_of user h) in
          let fit_kept : IsFit max_per_user kept = record {
            bounded =
                let l = length-keep_recent ttl now (records_of user h) in
                let b = (fit user).bounded in omega arith;
            once = λ wanted.
                let l = count-keep_recent ttl now wanted (records_of user h) in
                let o = (fit user).once wanted in omega arith;
          } in
          subst (λ o. IsFit max_per_user (records_of o (cleanup_user ttl now user h))) same
            (subst (IsFit max_per_user) (sym (cleanup_user-kept ttl now user h)) fit_kept)
      | inr e ↦ rw (cleanup_user_other ttl now user h other e) (fit other)
    ]

    push-IsWellFormed :
        (user : ℕ) (x : NotificationRecord Float) (h : History Float)
        → ((wanted : String) → count wanted (x ∷ records_of user h) ≤ 1)
        → IsWellFormed max_per_user h
        → IsWellFormed max_per_user (push max_per_user user x h)
    unfolding push
    push-IsWellFormed user x h once fit other = elim (Bool-cases (user == other)) [
      | inl e ↦
          let same : user ≡ other = ground arith in
          let xs = x ∷ records_of user h in
          let fit_pushed : IsFit max_per_user (take max_per_user xs) = record {
            bounded = length-take-le max_per_user xs;
            once = λ wanted.
                let l = count-take max_per_user wanted xs in let o = once wanted in omega arith;
          } in
          subst (λ o. IsFit max_per_user (records_of o (push max_per_user user x h))) same
            (rw (get-put user (take max_per_user xs) h) fit_pushed)
      | inr e ↦
          rw (get_put_other other user (take max_per_user (x ∷ records_of user h)) h e) (fit other)
    ]

  module _ (service : Service Float) (now created_at : ℕ) (fresh_id : String) where
    abbrev IsKept : History Float → Type 0
    IsKept = IsWellFormed service.max_per_user

    record_delivered-IsWellFormed :
        (n : BlockchainNotification) (wallet_id : ℕ) (public_key : String) (h : History Float)
        → IsKept h
        → IsKept (record_delivered service now created_at fresh_id n wallet_id public_key h)
    unfolding record_delivered delivered_record
    record_delivered-IsWellFormed n wallet_id public_key h fit =
        let kept = cleanup_user service.ttl now n.user_id h in
        let fit' = cleanup_user-IsWellFormed service.max_per_user service.ttl now n.user_id h fit in
        elim (Bool-cases (is_recorded n.notification_id (records_of n.user_id kept))) [
          | inl e ↦ rw (e, record_delivered) fit'
          | inr e ↦
              rw (e, record_delivered)
                (push-IsWellFormed service.max_per_user n.user_id _ kept
                  (λ wanted.
                    count_new n.notification_id wanted
                      (delivered_record service now created_at fresh_id n wallet_id public_key)
                      (records_of n.user_id kept) refl e ((fit' n.user_id).once wanted))
                  fit')
        ]

    -- Recording a delivered event, where it is not refused, keeps every user's history within its
    -- bound and each event in it at most once.
    pub add_delivered-IsWellFormed :
        (n : BlockchainNotification) (h h' : History Float)
        → IsKept h
        → add_delivered service now created_at fresh_id n h ≡ recorded h'
        → IsKept h'
    unfolding add_delivered
    add_delivered-IsWellFormed n h h' fit e =
        elim (Option-cases (wallet_of (field "wallet_id" n.payload))) [
          | inl w ↦ let g = rw (w, add_delivered) at e in cc
          | inr (wallet_id, w) ↦
              elim (Option-cases (public_key_of (field "public_key" n.payload))) [
                | inl k ↦ let g = rw (w, k, add_delivered) at e in cc
                | inr (public_key, k) ↦
                    let g = rw (w, k, add_delivered) at e in
                    let same : record_delivered service now created_at fresh_id n wallet_id
                          public_key h
                        ≡ h' =
                      cc in
                    subst IsKept same (record_delivered-IsWellFormed n wallet_id public_key h fit)
              ]
        ]

    cleanup_users-IsWellFormed :
        (users : List ℕ) (h : History Float)
        → IsKept h
        → IsKept (cleanup_users service.ttl now users h)
    unfolding cleanup_users
    cleanup_users-IsWellFormed [] h fit = fit
    cleanup_users-IsWellFormed (user ∷ users) h fit =
        cleanup_users-IsWellFormed users _
          (cleanup_user-IsWellFormed service.max_per_user service.ttl now user h fit)
