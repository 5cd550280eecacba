-- ===== src/Store/Fallback/Linear.antt =====
-- Each pass without Lua does what its script does: it refuses where the script changes nothing, and
-- in any state that agrees with what it read on the watched keys, its queued writes and its reply
-- are the script's.
use my_mtlwallet_bot.Prelude.{
  ℕ, ◌≡◌, refl, max, Option, Bool, ◌||◌, not, arith, ◌==◌, ltb, if◌then◌else◌, is_some, length,
  head?, Bool-cases, inl, inr,
}
use my_mtlwallet_bot.Notification.{BlockchainNotification, idempotency_key}
use my_mtlwallet_bot.Redis.{
  Redis, redis_laws, Key, update, hold, hold_generation, hold_generation_sequence, pending, dedupe,
  pending_ids, flush_lock, due,
}
use my_mtlwallet_bot.Store.Scripts.{
  later_of, holds_number, is_head, is_active, is_due, touch_hold, release_due_hold,
  release_hold_generation, enqueue_script, claim_accept_script, acknowledge_head,
  acknowledge_head_if_lock_owned, clear_immediate_due, release_lock_script, renew_lock_script,
}
use my_mtlwallet_bot.Store.Transaction.{SameOn, SameView-refl, Follows}
use my_mtlwallet_bot.Store.Fallback.{
  number_or_zero, is_inactive, is_not_due, touch_watched, release_watched, enqueue_watched,
  claim_watched, clear_watched, acknowledge_watched, owned_acknowledge_watched, lock_watched,
  touch_without_lua, queue_release, release_hold_generation_without_lua,
  release_due_hold_without_lua, enqueue_without_lua, claim_accept_without_lua,
  clear_immediate_due_without_lua, acknowledge_without_lua, acknowledge_if_lock_owned_without_lua,
  release_lock_without_lua, renew_lock_without_lua,
}

later_of-max : (o : Option ℕ) (n : ℕ) → later_of o n ≡ max n (number_or_zero o)
later_of-max o n = ground arith

is_inactive-not : (o : Option ℕ) (n : ℕ) → is_inactive o n ≡ not (is_active o n)
is_inactive-not o n = ground arith

is_not_due-not : (o : Option ℕ) (n : ℕ) → is_not_due o n ≡ not (is_due o n)
is_not_due-not o n = ground arith

is_pos : (n : ℕ) → not (n == 0) ≡ ltb 0 n
is_pos n = ground arith

-- Writes to two keys that differ by their names commute.
update_swap :
    (f : Key → Option ℕ) (u : ℕ) (a b : Option ℕ) (k : Key)
    → update (update f (hold_generation u) a) hold_generation_sequence b k
      ≡ update (update f hold_generation_sequence b) (hold_generation u) a k
update_swap f u a b hold_generation_sequence = refl
update_swap f u a b _ = refl

module _ (r : Redis) (u : ℕ) (db db' : r.Db) where
  pub touch-Follows :
      (until ttl : ℕ)
      → SameOn (touch_watched u) (r.view db) (r.view db')
      → Follows r (touch_hold r u until ttl) db db' (touch_without_lua r u until ttl db)
  unfolding touch_hold touch_without_lua
  touch-Follows until ttl same =
      let e = same.0.0 in
      let g = same.1.0.0 in
      simp (redis_laws, e, g, later_of-max)
        (
          refl,
          record {
            strings = update_swap _ u _ _;
            lists = λ k. refl;
            sets = λ k m. refl;
            scores = λ k v. refl;
          },
        )

  -- The queue length that the pass read decides as the length that the script reads.
  queue_release-eq :
      (now : ℕ)
      → SameOn (release_watched u) (r.view db) (r.view db')
      → let dropped = r.del (hold_generation u) (r.del (hold u) db') in
        queue_release r u now (length ((r.view db).lists (pending u))) db' ≡ (
          if ltb 0 (length ((r.view db').lists (pending u)))
          then r.zadd due now u dropped
          else r.zrem due u dropped)
  queue_release-eq now same =
      let l = same.1.1.1.0.1 in
      elim (Bool-cases (ltb 0 (length ((r.view db').lists (pending u))))) [
        | inl t ↦ simp (l, is_pos, t)
        | inr f ↦ simp (l, is_pos, f)
      ]

  pub release_due_hold-Follows :
      (until now : ℕ)
      → SameOn (release_watched u) (r.view db) (r.view db')
      → Follows r
          (release_due_hold r u until now)
          db
          db'
          (release_due_hold_without_lua r u until now db)
  unfolding release_due_hold release_due_hold_without_lua
  release_due_hold-Follows until now same =
      let e = same.0.0 in
      elim (Bool-cases (holds_number ((r.view db').strings (hold u)) until)) [
        | inl t ↦ simp (redis_laws, e, t) (refl, rw (queue_release-eq now same) (SameView-refl _))
        | inr f ↦ simp (redis_laws, e, f)
      ]

  pub release_hold_generation-Follows :
      (generation now : ℕ)
      → SameOn (release_watched u) (r.view db) (r.view db')
      → Follows r
          (release_hold_generation r u generation now)
          db
          db'
          (release_hold_generation_without_lua r u generation now db)
  unfolding release_hold_generation release_hold_generation_without_lua
  release_hold_generation-Follows generation now same =
      let e = same.1.0.0 in
      elim (Bool-cases (holds_number ((r.view db').strings (hold_generation u)) generation)) [
        | inl t ↦ simp (redis_laws, e, t) (refl, rw (queue_release-eq now same) (SameView-refl _))
        | inr f ↦ simp (redis_laws, e, f)
      ]

  module _ (n : BlockchainNotification) where
    abbrev known_at : Bool
    known_at =
        (r.view db').sets (dedupe u) (idempotency_key n)
        || (r.view db').sets (pending_ids u) (idempotency_key n)

    pub enqueue-Follows :
        (ttl : ℕ)
        → SameOn (enqueue_watched u) (r.view db) (r.view db')
        → Follows r (enqueue_script r u n ttl) db db' (enqueue_without_lua r u n ttl db)
    unfolding enqueue_script enqueue_without_lua
    enqueue-Follows ttl same =
        let d = same.0.2 (idempotency_key n) in
        let p = same.1.0.2 (idempotency_key n) in
        elim (Bool-cases known_at) [
          | inl t ↦ simp (redis_laws, d, p, t)
          | inr f ↦ simp (redis_laws, d, p, f) (refl, SameView-refl _)
        ]

    pub claim_accept-Follows :
        (ttl now : ℕ)
        → SameOn (claim_watched u) (r.view db) (r.view db')
        → Follows r
            (claim_accept_script r u n ttl now)
            db
            db'
            (claim_accept_without_lua r u n ttl now db)
    unfolding claim_accept_script claim_accept_without_lua
    claim_accept-Follows ttl now same =
        let d = same.0.2 (idempotency_key n) in
        let p = same.1.0.2 (idempotency_key n) in
        let h = same.1.1.0.0 in
        elim (Bool-cases known_at) [
          | inl t ↦ simp (redis_laws, d, p, t)
          | inr f ↦ elim (Bool-cases (is_active ((r.view db').strings (hold u)) now)) [
            | inl on ↦ simp (redis_laws, d, p, h, is_inactive-not, f, on) (refl, SameView-refl _)
            | inr off ↦ simp (redis_laws, d, p, h, is_inactive-not, f, off) (refl, SameView-refl _)
          ]
        ]

    abbrev heads : Bool
    heads = is_head (head? ((r.view db').lists (pending u))) n

    pub acknowledge-Follows :
        SameOn (acknowledge_watched u) (r.view db) (r.view db')
        → Follows r (acknowledge_head r u n) db db' (acknowledge_without_lua r u n db)
    unfolding acknowledge_head acknowledge_without_lua
    acknowledge-Follows same =
        let l = same.0.1 in
        elim (Bool-cases heads) [
          | inl t ↦ simp (redis_laws, l, t) (refl, SameView-refl _)
          | inr f ↦ simp (redis_laws, l, f)
        ]

    pub acknowledge_if_lock_owned-Follows :
        (token : ℕ)
        → SameOn (owned_acknowledge_watched u) (r.view db) (r.view db')
        → Follows r
            (acknowledge_head_if_lock_owned r u n token)
            db
            db'
            (acknowledge_if_lock_owned_without_lua r u n token db)
    unfolding acknowledge_head_if_lock_owned acknowledge_if_lock_owned_without_lua
    acknowledge_if_lock_owned-Follows token same =
        let l = same.0.1 in
        let o = same.1.1.0.0 in
        elim (Bool-cases (holds_number ((r.view db').strings (flush_lock u)) token)) [
          | inr f ↦ simp (redis_laws, l, o, f)
          | inl own ↦ elim (Bool-cases heads) [
            | inl t ↦ simp (redis_laws, l, o, own, t) (refl, SameView-refl _)
            | inr f ↦ simp (redis_laws, l, o, own, f)
          ]
        ]

  pub clear_immediate_due-Follows :
      (token now : ℕ)
      → SameOn (clear_watched u) (r.view db) (r.view db')
      → Follows r
          (clear_immediate_due r u token now)
          db
          db'
          (clear_immediate_due_without_lua r u token now db)
  unfolding clear_immediate_due clear_immediate_due_without_lua
  clear_immediate_due-Follows token now same =
      let l = same.0.1 in
      let h = same.1.0.0 in
      let s = same.1.1.0.3 u in
      let o = same.1.1.1.0.0 in
      elim (Bool-cases (holds_number ((r.view db').strings (flush_lock u)) token)) [
        | inr f ↦ simp (redis_laws, o, f)
        | inl own ↦ elim (Bool-cases (length ((r.view db').lists (pending u)) == 0)) [
          | inr f ↦ simp (redis_laws, o, own, l, f)
          | inl empty ↦ elim (Bool-cases (is_some ((r.view db').strings (hold u)))) [
            | inl t ↦ simp (redis_laws, o, own, l, empty, h, t)
            | inr free ↦ elim (Bool-cases (is_due ((r.view db').scores due u) now)) [
              | inl t ↦
                  simp (redis_laws, o, own, l, empty, h, free, s, is_not_due-not, t)
                    (refl, SameView-refl _)
              | inr f ↦ simp (redis_laws, o, own, l, empty, h, free, s, is_not_due-not, f)
            ]
          ]
        ]
      ]

  pub release_lock-Follows :
      (token : ℕ)
      → SameOn (lock_watched u) (r.view db) (r.view db')
      → Follows r (release_lock_script r u token) db db' (release_lock_without_lua r u token db)
  unfolding release_lock_script release_lock_without_lua
  release_lock-Follows token same =
      let e = same.0.0 in
      elim (Bool-cases (holds_number ((r.view db').strings (flush_lock u)) token)) [
        | inl t ↦ simp (redis_laws, e, t) (refl, SameView-refl _)
        | inr f ↦ simp (redis_laws, e, f)
      ]

  pub renew_lock-Follows :
      (token ttl : ℕ)
      → SameOn (lock_watched u) (r.view db) (r.view db')
      → Follows r (renew_lock_script r u token ttl) db db' (renew_lock_without_lua r u token ttl db)
  unfolding renew_lock_script renew_lock_without_lua
  renew_lock-Follows token ttl same =
      let e = same.0.0 in
      elim (Bool-cases (holds_number ((r.view db').strings (flush_lock u)) token)) [
        | inl t ↦ simp (redis_laws, e, t) (refl, SameView-refl _)
        | inr f ↦ simp (redis_laws, e, f)
      ]
