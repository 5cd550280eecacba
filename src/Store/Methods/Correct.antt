-- ===== src/Store/Methods/Correct.antt =====
-- Each method, by Lua or by the WATCH loop, does what the mailbox operation says, in the state in
-- which it takes effect, and touches no other user's mailbox.
use my_mtlwallet_bot.Prelude.{
  ℕ, ◌+◌, ◌≡◌, refl, ap, none, ◌∙◌, fun_ext, some, subst, Bool-cases, inl, inr, Bool, true, false,
  List, not, arith, if◌then◌else◌, head?,
}
use my_mtlwallet_bot.Notification.{BlockchainNotification}
use my_mtlwallet_bot.Redis.{
  Redis, redis_laws, Key, Keyspace, update, flush_lock, hold, hold_generation_sequence, next_number,
}
use my_mtlwallet_bot.Store.Scripts.{later_of, holds_number, is_head, release_lock_script}
use my_mtlwallet_bot.Store.Mailbox.{
  Mailbox, mailbox, touched, released, enqueued, accepted, acknowledged,
}
use my_mtlwallet_bot.Store.Refines.{
  Implements, touch_hold-touched, release_due_hold-released, release_hold_generation-released,
  enqueue_script-appended, claim_accept_script-accepted,
  acknowledge_head_if_lock_owned-acknowledged,
}
use my_mtlwallet_bot.Store.History.Sequence.{touch_hold-sequence}
use my_mtlwallet_bot.Store.Transaction.{
  Plan, IsFenced, SameOn, SameView, SameView-refl, Follows, Agrees, transact-Agrees,
}
use my_mtlwallet_bot.Store.Fallback.{
  touch_watched, release_watched, enqueue_watched, claim_watched, owned_acknowledge_watched,
  lock_watched, touch_without_lua, release_hold_generation_without_lua,
  release_due_hold_without_lua, enqueue_without_lua, claim_accept_without_lua,
  acknowledge_if_lock_owned_without_lua, release_lock_without_lua,
}
use my_mtlwallet_bot.Store.Fallback.Linear.{
  touch-Follows, release_due_hold-Follows, release_hold_generation-Follows, enqueue-Follows,
  claim_accept-Follows, acknowledge_if_lock_owned-Follows, release_lock-Follows,
}
use my_mtlwallet_bot.Store.Methods.{
  ok, value_error, StoreConfig, Server, eval, no_eval, atomically, taken_at, touch_with_generation,
  release_due_hold_if_unchanged, release_hold_generation_if_unchanged, enqueue, claim_accept,
  acknowledge_if_lock_owned, release_lock,
}

-- The server keeps the promise of WATCH in the loop that a method runs.
abbrev pub IsServed : (r : Redis) → List Key → Server r.Db → r.Db → Type 0
IsServed r watched eval db = Unit
IsServed r watched (no_eval rounds) db = IsFenced r watched rounds db

SameView-mailbox : {a b : Keyspace} → SameView a b → (u : ℕ) → mailbox a u ≡ mailbox b u
SameView-mailbox s u = λ i. record {
  hold_until = s.strings (hold u) i;
  generation = s.strings (Key.hold_generation u) i;
  queue = s.lists (Key.pending u) i;
  seen = fun_ext (s.sets (Key.dedupe u)) i;
  waiting = fun_ext (s.sets (Key.pending_ids u)) i;
  owner = s.strings (Key.flush_lock u) i;
  due_at = s.scores Key.due u i;
}

module _ (r : Redis) (server : Server r.Db) where
  atomically-Agrees :
      {A : Type 0} (watched : List Key) (plan : r.Db → Plan r.Db A) (script : r.Db → A × r.Db)
      → ((db db' : r.Db)
          → SameOn watched (r.view db) (r.view db')
          → Follows r script db db' (plan db))
      → (db : r.Db) → IsServed r watched server db
      → Agrees r (atomically server script plan db) (script (taken_at server plan db))
  unfolding atomically taken_at
  atomically-Agrees watched plan script follows db served = go server served
    where
      go :
          (s : Server r.Db)
          → IsServed r watched s db
          → Agrees r (atomically s script plan db) (script (taken_at s plan db))
      go eval h = (refl, SameView-refl _)
      go (no_eval rounds) h = transact-Agrees r watched plan script follows rounds db h

  Implements-Agrees :
      {u : ℕ} {p : r.Db} {A : Type 0} {x y : A × r.Db} {spec : A × Mailbox}
      → Agrees r x y
      → Implements r u p y spec
      → Implements r u p x spec
  Implements-Agrees {u} a i = record {
    reply = a.0 ∙ i.reply;
    own = SameView-mailbox a.1 u ∙ i.own;
    others = λ v h. SameView-mailbox a.1 v ∙ i.others v h;
  }

module _ (r : Redis) (config : StoreConfig) (server : Server (Redis.Db r)) (u : ℕ)
    (db : Redis.Db r) where
  open config use {hold_seconds, dedupe_ttl_seconds}

  -- touch_with_generation, by Lua or by the WATCH loop, moves the hold to the later of its old
  -- deadline and now plus the hold time, gives it the next generation, writes that generation to
  -- the shared sequence, schedules the user at that deadline, answers both numbers, and changes
  -- no other mailbox.
  pub touch_with_generation-touched :
      (now : ℕ)
      → IsServed r (touch_watched u) server db
      → let p = taken_at server (touch_without_lua r u (now + hold_seconds) hold_seconds) db in
        let g = next_number ((r.view p).strings hold_generation_sequence) in
        let out = touch_with_generation r config server u now db in
        Implements r u p out (
          (later_of ((r.view p).strings (hold u)) (now + hold_seconds), g),
          touched (now + hold_seconds) g (mailbox (r.view p) u),
        )
        × ((r.view out.1).strings hold_generation_sequence ≡ some g)
  unfolding touch_with_generation
  touch_with_generation-touched now served =
      let a =
        atomically-Agrees r server (touch_watched u) _ _
          (λ d d'. touch-Follows r u d d' (now + hold_seconds) hold_seconds) db served in
      (
        Implements-Agrees r server a (touch_hold-touched r u _ (now + hold_seconds) hold_seconds),
        a.1.strings hold_generation_sequence
            ∙ touch_hold-sequence r u (now + hold_seconds) hold_seconds _,
      )

  -- release_due_hold_if_unchanged, by Lua or by the WATCH loop, drops the hold and its generation
  -- exactly if the hold's deadline is the expected one, and then schedules waiting events for now
  -- or takes an idle user off the schedule; no other mailbox changes.
  pub release_due_hold_if_unchanged-released :
      (expected now : ℕ)
      → IsServed r (release_watched u) server db
      → let p = taken_at server (release_due_hold_without_lua r u expected now) db in
        let m = mailbox (r.view p) u in
        Implements r u p
          (release_due_hold_if_unchanged r config server u expected now db)
          (if holds_number m.hold_until expected then (true, released now m) else (false, m))
  unfolding release_due_hold_if_unchanged
  release_due_hold_if_unchanged-released expected now served =
      Implements-Agrees r server
        (atomically-Agrees r server (release_watched u) _ _
          (λ d d'. release_due_hold-Follows r u d d' expected now) db served)
        (release_due_hold-released r u _ expected now)

  -- release_hold_generation_if_unchanged, by Lua or by the WATCH loop, drops the hold and its
  -- generation exactly if the generation is the expected one, and then schedules waiting events
  -- for now or takes an idle user off the schedule; no other mailbox changes.
  pub release_hold_generation_if_unchanged-released :
      (expected now : ℕ)
      → IsServed r (release_watched u) server db
      → let p = taken_at server (release_hold_generation_without_lua r u expected now) db in
        let m = mailbox (r.view p) u in
        Implements r u p
          (release_hold_generation_if_unchanged r config server u expected now db)
          (if holds_number m.generation expected then (true, released now m) else (false, m))
  unfolding release_hold_generation_if_unchanged
  release_hold_generation_if_unchanged-released expected now served =
      Implements-Agrees r server
        (atomically-Agrees r server (release_watched u) _ _
          (λ d d'. release_hold_generation-Follows r u d d' expected now) db served)
        (release_hold_generation-released r u _ expected now)

  -- The guard of `enqueue` and `claim_accept` passes its own user's events.
  Implements-ok :
      {A : Type 0} {p : r.Db} {x : A × r.Db} {spec : A × Mailbox} {b : Bool}
      → b ≡ true
      → Implements r u p x spec
      → Implements r u p (if not b then (value_error, db) else (ok x.0, x.1)) (ok spec.0, spec.1)
  Implements-ok e i = rw e (record { reply = ap ok i.reply; own = i.own; others = i.others })

  -- enqueue of a user's own event, by Lua or by the WATCH loop, appends it exactly if its key was
  -- neither seen nor waits, answers whether it did, and changes no other mailbox.
  pub enqueue-appended :
      (n : BlockchainNotification)
      → u ≡ n.user_id
      → IsServed r (enqueue_watched u) server db
      → let p = taken_at server (enqueue_without_lua r u n dedupe_ttl_seconds) db in
        let m = mailbox (r.view p) u in
        let (reply, m') = enqueued n m in
        Implements r u p (enqueue r config server u n db) (ok reply, m')
  unfolding enqueue
  enqueue-appended n e served = Implements-ok (ground arith) (
      Implements-Agrees r server
        (atomically-Agrees r server (enqueue_watched u) _ _
          (λ d d'. enqueue-Follows r u d d' n dedupe_ttl_seconds) db served)
        (enqueue_script-appended r u _ n dedupe_ttl_seconds))

  -- claim_accept of a user's own event, by Lua or by the WATCH loop, does what the abstract
  -- mailbox operation says in the state in which it takes effect: it refuses a key that was seen
  -- or still waits, and else appends the event and answers queued under an active hold, and
  -- direct with the user scheduled for now otherwise; no other user's mailbox changes.
  pub claim_accept-accepted :
      (n : BlockchainNotification) (now : ℕ)
      → u ≡ n.user_id
      → IsServed r (claim_watched u) server db
      → let p = taken_at server (claim_accept_without_lua r u n dedupe_ttl_seconds now) db in
        let (reply, m) = accepted n now (mailbox (r.view p) u) in
        Implements r u p (claim_accept r config server u n now db) (ok reply, m)
  unfolding claim_accept
  claim_accept-accepted n now e served = Implements-ok (ground arith) (
      Implements-Agrees r server
        (atomically-Agrees r server (claim_watched u) _ _
          (λ d d'. claim_accept-Follows r u d d' n dedupe_ttl_seconds now) db served)
        (claim_accept_script-accepted r u _ n dedupe_ttl_seconds now))

  -- acknowledge_if_lock_owned, by Lua or by the WATCH loop, pops the head of the queue and
  -- forgets its waiting key exactly if the caller's token owns the flush lock and the event is
  -- the head, answers whether it did, and changes no other mailbox.
  pub acknowledge_if_lock_owned-acknowledged :
      (n : BlockchainNotification) (token : ℕ)
      → IsServed r (owned_acknowledge_watched u) server db
      → let p = taken_at server (acknowledge_if_lock_owned_without_lua r u n token) db in
        let m = mailbox (r.view p) u in
        Implements r u p (acknowledge_if_lock_owned r config server u n token db) (
          if holds_number m.owner token
          then (if is_head (head? m.queue) n then (true, acknowledged n m) else (false, m))
          else (false, m))
  unfolding acknowledge_if_lock_owned
  acknowledge_if_lock_owned-acknowledged n token served =
      Implements-Agrees r server
        (atomically-Agrees r server (owned_acknowledge_watched u) _ _
          (λ d d'. acknowledge_if_lock_owned-Follows r u d d' n token) db served)
        (acknowledge_head_if_lock_owned-acknowledged r u _ n token)

  release_lock_script-view :
      (token : ℕ) (p : r.Db)
      → let owned = holds_number ((r.view p).strings (flush_lock u)) token in
        let freed : Keyspace = record (r.view p) {
          strings = update (r.view p).strings (flush_lock u) none;
        } in
        let out = release_lock_script r u token p in
        (out.0 ≡ owned) × (r.view out.1 ≡ (if owned then freed else r.view p))
  unfolding release_lock_script
  release_lock_script-view token p =
      elim (Bool-cases (holds_number ((r.view p).strings (flush_lock u)) token)) [
        | inl t ↦ simp (redis_laws, t) (refl, refl)
        | inr f ↦ simp (redis_laws, f) (refl, refl)
      ]

  -- release_lock, by Lua or by the WATCH loop, frees the user's flush lock exactly if the token
  -- owns it, answers whether it did, and leaves every other key of the database as it reads.
  pub release_lock-owner :
      (token : ℕ)
      → IsServed r (lock_watched u) server db
      → let p = taken_at server (release_lock_without_lua r u token) db in
        let owned = holds_number ((r.view p).strings (flush_lock u)) token in
        let freed : Keyspace = record (r.view p) {
          strings = update (r.view p).strings (flush_lock u) none;
        } in
        let out = release_lock r config server u token db in
        (out.0 ≡ owned) × SameView (r.view out.1) (if owned then freed else r.view p)
  unfolding release_lock
  release_lock-owner token served =
      let a =
        atomically-Agrees r server (lock_watched u) _ _
          (λ d d'. release_lock-Follows r u d d' token) db served in
      let s = release_lock_script-view token _ in (a.0 ∙ s.0, subst (SameView _) s.1 a.1)
