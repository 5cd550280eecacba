-- ===== src/Store/Refines.antt =====
-- Each script changes the mailbox of its user as the mailbox operation says, and no other mailbox.
pub mod Locks
use my_mtlwallet_bot.Prelude.{
  ℕ, ◌≡◌, ◌≢◌, refl, Bool, true, false, none, some, arith, ◌==◌, ==_refl, ltb, length, head?,
  Bool-cases, inl, inr, if◌then◌else◌,
}
use my_mtlwallet_bot.Notification.{BlockchainNotification}
use my_mtlwallet_bot.Redis.{
  Redis, redis_laws, hold, hold_generation_sequence, pending, flush_lock, due, next_number,
}
use my_mtlwallet_bot.Store.Scripts.{
  duplicate, later_of, holds_number, is_head, is_active, is_known, touch_hold, drop_hold,
  release_due_hold, release_hold_generation, append_pending, enqueue_script, claim_accept_script,
  acknowledge_head, acknowledge_head_if_lock_owned, release_lock_script,
}
use my_mtlwallet_bot.Store.Mailbox.{
  Mailbox, mailbox, touched, released, is_known_to, appended, enqueued, accepted, acknowledged,
}

-- A script's reply and database against an operation's reply and mailbox.
pub record Implements (r : Redis) (u : ℕ) (db : r.Db) {A : Type 0} (x : A × r.Db) (y : A × Mailbox)
    : Type 0 where
  pub reply : x.0 ≡ y.0
  pub own : mailbox (r.view x.1) u ≡ y.1
  pub others : (v : ℕ) → v ≢ u → mailbox (r.view x.1) v ≡ mailbox (r.view db) v

pub ne→==_false : {u v : ℕ} → v ≢ u → (u == v) ≡ false
ne→==_false h = ground arith

module _ (r : Redis) (u : ℕ) (db : r.Db) where
  pub Implements-if :
      {A : Type 0} (b b' : Bool) {x y : A × r.Db} {x' y' : A × Mailbox}
      → b ≡ b'
      → Implements r u db x x'
      → Implements r u db y y'
      → Implements r u db (if b then x else y) (if b' then x' else y')
  Implements-if b true e i j = rw e i
  Implements-if b false e i j = rw e j

  pub Implements-same : {A : Type 0} (a : A) → Implements r u db (a, db) (a, mailbox (r.view db) u)
  Implements-same a = record { reply = refl; own = refl; others = λ v h. refl }

  pub append_pending-appended :
      (n : BlockchainNotification) (ttl : ℕ)
      → mailbox (r.view (append_pending r u n ttl db)) u ≡ appended n (mailbox (r.view db) u)
  unfolding append_pending appended
  append_pending-appended n ttl = simp (redis_laws, ==_refl)

  pub append_pending-others :
      (n : BlockchainNotification) (ttl v : ℕ)
      → v ≢ u
      → mailbox (r.view (append_pending r u n ttl db)) v ≡ mailbox (r.view db) v
  unfolding append_pending
  append_pending-others n ttl v h = let e = ne→==_false h in simp (redis_laws, e)

  -- A user's read is the field of the mailbox, so the tests agree.
  pub holds_lock :
      (token : ℕ)
      → holds_number (r.get (flush_lock u) db) token
        ≡ holds_number (mailbox (r.view db) u).owner token
  holds_lock token = simp redis_laws

  -- _TOUCH_HOLD: the hold is extended and never shortened, a new generation is drawn from the
  -- sequence, and the user is scheduled at the deadline.
  pub touch_hold-touched :
      (until ttl : ℕ)
      → let g = next_number ((r.view db).strings hold_generation_sequence) in
        Implements r u db (touch_hold r u until ttl db) (
          (later_of ((r.view db).strings (hold u)) until, g),
          touched until g (mailbox (r.view db) u),
        )
  unfolding touch_hold touched
  touch_hold-touched until ttl = record {
    reply = simp redis_laws;
    own = simp (redis_laws, ==_refl);
    others = λ v h. let e = ne→==_false h in simp (redis_laws, e);
  }

  drop_hold-released :
      (now : ℕ)
      → Implements r u db (true, drop_hold r u now db) (true, released now (mailbox (r.view db) u))
  unfolding drop_hold released
  drop_hold-released now = record {
    reply = refl;
    own = elim (Bool-cases (ltb 0 (length ((r.view db).lists (pending u))))) [
      | inl e ↦ simp (redis_laws, ==_refl, e)
      | inr e ↦ simp (redis_laws, ==_refl, e)
    ];
    others = λ v h.
        let n = ne→==_false h in
        elim (Bool-cases (ltb 0 (length ((r.view db).lists (pending u))))) [
          | inl e ↦ simp (redis_laws, n, e)
          | inr e ↦ simp (redis_laws, n, e)
        ];
  }

  -- _RELEASE_DUE_HOLD_IF_UNCHANGED
  pub release_due_hold-released :
      (expected now : ℕ)
      → let m = mailbox (r.view db) u in
        Implements r u db
          (release_due_hold r u expected now db)
          (if holds_number m.hold_until expected then (true, released now m) else (false, m))
  unfolding release_due_hold
  release_due_hold-released expected now =
      Implements-if _ _ (simp redis_laws) (drop_hold-released now) (Implements-same false)

  -- _RELEASE_HOLD_GENERATION_IF_UNCHANGED
  pub release_hold_generation-released :
      (expected now : ℕ)
      → let m = mailbox (r.view db) u in
        Implements r u db
          (release_hold_generation r u expected now db)
          (if holds_number m.generation expected then (true, released now m) else (false, m))
  unfolding release_hold_generation
  release_hold_generation-released expected now =
      Implements-if _ _ (simp redis_laws) (drop_hold-released now) (Implements-same false)

  -- _ENQUEUE
  pub enqueue_script-appended :
      (n : BlockchainNotification) (ttl : ℕ)
      → let m = mailbox (r.view db) u in
        Implements r u db (enqueue_script r u n ttl db) (enqueued n m)
  unfolding enqueue_script
  enqueue_script-appended n ttl =
      Implements-if (is_known r u n db) (is_known_to n (mailbox (r.view db) u)) (simp redis_laws)
        (Implements-same false)
        (record {
          reply = refl;
          own = append_pending-appended n ttl;
          others = append_pending-others n ttl;
        })

  hold-append :
      (n : BlockchainNotification) (ttl now : ℕ)
      → is_active (r.get (hold u) (append_pending r u n ttl db)) now
        ≡ is_active (mailbox (r.view db) u).hold_until now
  unfolding append_pending
  hold-append n ttl now = simp redis_laws

  own-scheduled :
      (n : BlockchainNotification) (ttl now : ℕ)
      → mailbox (r.view (r.zadd due now u (append_pending r u n ttl db))) u
        ≡ record (appended n (mailbox (r.view db) u)) { due_at = some now }
  unfolding append_pending appended
  own-scheduled n ttl now = simp (redis_laws, ==_refl)

  scheduled-others :
      (n : BlockchainNotification) (ttl now v : ℕ)
      → v ≢ u
      → mailbox (r.view (r.zadd due now u (append_pending r u n ttl db))) v ≡ mailbox (r.view db) v
  unfolding append_pending
  scheduled-others n ttl now v h = let e = ne→==_false h in simp (redis_laws, e)

  -- _CLAIM_ACCEPT
  pub claim_accept_script-accepted :
      (n : BlockchainNotification) (ttl now : ℕ)
      → Implements r u db
          (claim_accept_script r u n ttl now db)
          (accepted n now (mailbox (r.view db) u))
  unfolding claim_accept_script accepted
  claim_accept_script-accepted n ttl now =
      Implements-if (is_known r u n db) (is_known_to n (mailbox (r.view db) u)) (simp redis_laws)
        (Implements-same duplicate)
        (Implements-if (is_active (r.get (hold u) (append_pending r u n ttl db)) now)
          (is_active (mailbox (r.view db) u).hold_until now) (hold-append n ttl now)
          (record {
            reply = refl;
            own = append_pending-appended n ttl;
            others = append_pending-others n ttl;
          })
          (record {
            reply = refl;
            own = own-scheduled n ttl now;
            others = scheduled-others n ttl now;
          }))

  pub acknowledge_head-acknowledged :
      (n : BlockchainNotification)
      → let m = mailbox (r.view db) u in
        Implements r u db
          (acknowledge_head r u n db)
          (if is_head (head? m.queue) n then (true, acknowledged n m) else (false, m))
  unfolding acknowledge_head acknowledged
  acknowledge_head-acknowledged n =
      Implements-if (is_head (r.lindex_head (pending u) db) n)
        (is_head (head? (mailbox (r.view db) u).queue) n) (simp redis_laws)
        (record {
          reply = refl;
          own = simp (redis_laws, ==_refl);
          others = λ v h. let e = ne→==_false h in simp (redis_laws, e);
        })
        (Implements-same false)

  -- _ACKNOWLEDGE_HEAD_IF_LOCK_OWNED
  pub acknowledge_head_if_lock_owned-acknowledged :
      (n : BlockchainNotification) (token : ℕ)
      → let m = mailbox (r.view db) u in
        Implements r u db (acknowledge_head_if_lock_owned r u n token db) (
          if holds_number m.owner token
          then (if is_head (head? m.queue) n then (true, acknowledged n m) else (false, m))
          else (false, m))
  unfolding acknowledge_head_if_lock_owned
  acknowledge_head_if_lock_owned-acknowledged n token =
      Implements-if _ _ (holds_lock token) (acknowledge_head-acknowledged n) (Implements-same false)

  -- _RELEASE_LOCK
  pub release_lock_script-owner :
      (token : ℕ)
      → let m = mailbox (r.view db) u in
        Implements r u db
          (release_lock_script r u token db)
          (if holds_number m.owner token then (true, record m { owner = none }) else (false, m))
  unfolding release_lock_script
  release_lock_script-owner token =
      Implements-if _ _ (holds_lock token)
        (record {
          reply = refl;
          own = simp (redis_laws, ==_refl);
          others = λ v h. let e = ne→==_false h in simp (redis_laws, e);
        })
        (Implements-same false)
