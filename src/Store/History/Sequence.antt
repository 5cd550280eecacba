-- ===== src/Store/History/Sequence.antt =====
-- The generation sequence through a history: only a touch writes it, and it never goes back.
use my_mtlwallet_bot.Prelude.{
  ℕ, ◌≤◌, ◌<◌, ◌≡◌, ◌⊎◌, refl, ap, ◌∙◌, Bool, true, false, Option, none, some, List, [], ◌∷◌, arith,
  not, ◌||◌, ◌==◌, is_some, if◌then◌else◌, inl, inr,
}
use my_mtlwallet_bot.Notification.{BlockchainNotification, idempotency_key}
use my_mtlwallet_bot.Redis.{
  Redis, Keyspace, flush_lock, due, pending, pending_ids, hold, hold_generation,
  hold_generation_sequence, next_number,
}
use my_mtlwallet_bot.Store.Scripts.{
  Accepted, duplicate, queued, direct, is_head, is_known, is_active, holds_number, is_due,
  touch_hold, drop_hold, release_due_hold, release_hold_generation, append_pending, enqueue_script,
  claim_accept_script, acknowledge_head, acknowledge_head_if_lock_owned, clear_immediate_due,
  acquire_lock, release_lock_script, renew_lock_script,
}
use my_mtlwallet_bot.Store.Methods
use my_mtlwallet_bot.Store.Methods.{StoreConfig}
use my_mtlwallet_bot.Store.Due.{Schedule}
use my_mtlwallet_bot.Store.Due.Repair.{due_users_script-IsMoved}
use my_mtlwallet_bot.Store.History.{
  Event, release_flow, enqueue_event, poll, touch, release_due, release_generation, claim,
  acknowledge, acknowledge_owned, clear_due, lock, unlock, renew, hold_lapses, generation_lapses,
  dedupe_lapses, lock_lapses, happen, history,
}

-- The sequence as a number; a missing key counts as 0.
abbrev pub number_of : Option ℕ → ℕ
number_of none = 0
number_of (some n) = n

pub next_number-above : (o : Option ℕ) → number_of o < next_number o
next_number-above none = omega arith
next_number-above (some n) = omega arith

module _ (r : Redis) where
  abbrev pub seq : r.Db → Option ℕ
  seq db = (r.view db).strings hold_generation_sequence

  abbrev pub level : r.Db → ℕ
  level db = number_of (seq db)

  at_seq :
      {a b : Keyspace}
      → a ≡ b
      → a.strings hold_generation_sequence ≡ b.strings hold_generation_sequence
  at_seq e = ap (λ (k : Keyspace). k.strings hold_generation_sequence) e

  seq-if :
      {A : Type 0} (b : Bool) (x y : A × r.Db) (o : Option ℕ)
      → seq x.1 ≡ o
      → seq y.1 ≡ o
      → seq (if b then x else y).1 ≡ o
  seq-if true x y o p q = p
  seq-if false x y o p q = q

  seq-if_db :
      (b : Bool) (x y : r.Db) (o : Option ℕ) → seq x ≡ o → seq y ≡ o → seq (if b then x else y) ≡ o
  seq-if_db true x y o p q = p
  seq-if_db false x y o p q = q

  seq-append :
      (u : ℕ) (n : BlockchainNotification) (ttl : ℕ) (db : r.Db)
      → seq (append_pending r u n ttl db) ≡ seq db
  unfolding append_pending
  seq-append u n ttl db =
      at_seq (r.rpush_effect _ _ _)
      ∙ at_seq (r.sadd_effect _ _ _)
      ∙ at_seq (r.expire_effect _ _ _)
      ∙ at_seq (r.sadd_effect _ _ _)

  seq-dropped : (u : ℕ) (db : r.Db) → seq (r.del (hold_generation u) (r.del (hold u) db)) ≡ seq db
  seq-dropped u db = at_seq (r.del_effect _ _) ∙ at_seq (r.del_effect _ _)

  seq-drop_hold : (u now : ℕ) (db : r.Db) → seq (drop_hold r u now db) ≡ seq db
  unfolding drop_hold
  seq-drop_hold u now db =
      seq-if_db _ _ _ _ (at_seq (r.zadd_effect _ _ _ _) ∙ seq-dropped u db)
        (at_seq (r.zrem_effect _ _ _) ∙ seq-dropped u db)

  -- A touch draws the next number, and writes it to the sequence.
  pub touch_hold-sequence :
      (u until ttl : ℕ) (db : r.Db)
      → seq (touch_hold r u until ttl db).1 ≡ some (next_number (seq db))
  unfolding touch_hold
  touch_hold-sequence u until ttl db =
      at_seq (r.set_ex_effect _ _ _ _)
      ∙ at_seq (r.incr_effect _ _)
      ∙ ap (λ o. some (next_number o))
          (at_seq (r.zadd_effect _ _ _ _) ∙ at_seq (r.set_ex_effect _ _ _ _))

  seq-acknowledge_head :
      (u : ℕ) (n : BlockchainNotification) (db : r.Db) → seq (acknowledge_head r u n db).1 ≡ seq db
  unfolding acknowledge_head
  seq-acknowledge_head u n db =
      seq-if {A = Bool} (is_head (r.lindex_head (pending u) db) n)
        (true, r.srem (pending_ids u) (idempotency_key n) (r.lpop (pending u) db)) (false, db)
        (seq db)
        (at_seq (r.srem_effect (pending_ids u) (idempotency_key n) (r.lpop (pending u) db))
          ∙ at_seq (r.lpop_effect (pending u) db))
        refl

  seq-claim :
      (u : ℕ) (n : BlockchainNotification) (ttl now : ℕ) (db : r.Db)
      → seq (claim_accept_script r u n ttl now db).1 ≡ seq db
  unfolding claim_accept_script
  seq-claim u n ttl now db =
      let added = append_pending r u n ttl db in
      let on = is_active (r.get (hold u) added) now in
      seq-if {A = Accepted} (is_known r u n db) (duplicate, db)
        (if on then (queued, added) else (direct, r.zadd due now u added)) (seq db) refl
        (seq-if {A = Accepted} on (queued, added) (direct, r.zadd due now u added) (seq db)
          (seq-append u n ttl db) (at_seq (r.zadd_effect due now u added) ∙ seq-append u n ttl db))

  seq-acquire_lock : (u token ttl : ℕ) (db : r.Db) → seq (acquire_lock r u token ttl db).1 ≡ seq db
  unfolding acquire_lock
  seq-acquire_lock u token ttl db =
      ap (λ x. seq x.1) (r.set_nx_ex_effect (flush_lock u) token ttl db)
      ∙ seq-if {A = Bool} (is_some ((r.view db).strings (flush_lock u))) (false, db)
          (true, r.set_ex (flush_lock u) token ttl db) (seq db) refl
          (at_seq (r.set_ex_effect (flush_lock u) token ttl db))

  seq-clear_due :
      (u token now : ℕ) (db : r.Db) → seq (clear_immediate_due r u token now db).1 ≡ seq db
  unfolding clear_immediate_due
  seq-clear_due u token now db =
      seq-if {A = Bool} (not (holds_number (r.get (flush_lock u) db) token)) (false, db)
        (if not (r.llen (pending u) db == 0) || is_some (r.get (hold u) db)
          then (false, db)
          else if is_due (r.zscore due u db) now
          then (true, r.zrem due u db)
          else (false, db))
        (seq db) refl
        (seq-if {A = Bool} (not (r.llen (pending u) db == 0) || is_some (r.get (hold u) db))
          (false, db)
          (if is_due (r.zscore due u db) now then (true, r.zrem due u db) else (false, db)) (seq db)
          refl
          (seq-if {A = Bool} (is_due (r.zscore due u db) now) (true, r.zrem due u db) (false, db)
            (seq db) (at_seq (r.zrem_effect due u db)) refl))

  seq-release_lock : (u token : ℕ) (db : r.Db) → seq (release_lock_script r u token db).1 ≡ seq db
  unfolding release_lock_script
  seq-release_lock u token db =
      seq-if {A = Bool} (holds_number (r.get (flush_lock u) db) token)
        (true, r.del (flush_lock u) db) (false, db) (seq db)
        (at_seq (r.del_effect (flush_lock u) db)) refl

  seq-renew_lock :
      (u token ttl : ℕ) (db : r.Db) → seq (renew_lock_script r u token ttl db).1 ≡ seq db
  unfolding renew_lock_script
  seq-renew_lock u token ttl db =
      seq-if {A = Bool} (holds_number (r.get (flush_lock u) db) token)
        (true, r.expire (flush_lock u) ttl db) (false, db) (seq db)
        (at_seq (r.expire_effect (flush_lock u) ttl db)) refl

  module _ (schedule : Schedule r) (config : StoreConfig) where
    -- Every other event leaves it.
    happen-sequence :
        (e : Event) (db : r.Db)
        → (seq (happen r schedule config e db) ≡ seq db)
          ⊎ ((seq (happen r schedule config e db) ≡ some (next_number (seq db))))
    unfolding happen Methods.release enqueue_script release_due_hold release_hold_generation
        acknowledge_head_if_lock_owned
    happen-sequence (touch u until ttl) db = inr (touch_hold-sequence u until ttl db)
    happen-sequence (release_flow u) db = inl (at_seq (r.zrem_effect _ _ _) ∙ seq-dropped u db)
    happen-sequence (enqueue_event u n ttl) db = inl (seq-if _ _ _ _ refl (seq-append u n ttl db))
    happen-sequence (poll now limit) db = inl (
        ap (λ f. f hold_generation_sequence)
          (due_users_script-IsMoved r schedule now limit db).strings)
    happen-sequence (release_due u x now) db = inl (seq-if _ _ _ _ (seq-drop_hold u now db) refl)
    happen-sequence (release_generation u x now) db =
        inl (seq-if _ _ _ _ (seq-drop_hold u now db) refl)
    happen-sequence (claim u n ttl now) db = inl (seq-claim u n ttl now db)
    happen-sequence (acknowledge u n) db = inl (seq-acknowledge_head u n db)
    happen-sequence (acknowledge_owned u n token) db =
        inl (seq-if _ _ _ _ (seq-acknowledge_head u n db) refl)
    happen-sequence (clear_due u token now) db = inl (seq-clear_due u token now db)
    happen-sequence (lock u token ttl) db = inl (seq-acquire_lock u token ttl db)
    happen-sequence (unlock u token) db = inl (seq-release_lock u token db)
    happen-sequence (renew u token ttl) db = inl (seq-renew_lock u token ttl db)
    happen-sequence (hold_lapses u) db = inl (at_seq (r.lapse_effect _ _))
    happen-sequence (generation_lapses u) db = inl (at_seq (r.lapse_effect _ _))
    happen-sequence (dedupe_lapses u) db = inl (at_seq (r.lapse_effect _ _))
    happen-sequence (lock_lapses u) db = inl (at_seq (r.lapse_effect _ _))

    pub happen-level : (e : Event) (db : r.Db) → level db ≤ level (happen r schedule config e db)
    happen-level e db = elim (happen-sequence e db) [
      | inl same ↦ rw same (omega arith)
      | inr next ↦ rw next (omega (arith, next_number-above (seq db)))
    ]

    pub history-level :
        (es : List Event) (db : r.Db) → level db ≤ level (history r schedule config es db)
    unfolding history
    history-level [] db = omega arith
    history-level (e ∷ es) db =
        omega (arith, happen-level e db, history-level es (happen r schedule config e db))
