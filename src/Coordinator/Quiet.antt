-- ===== src/Coordinator/Quiet.antt =====
-- A pass of the delivery loop that nobody disturbs sends the head of the queue and pops it.
use my_mtlwallet_bot.Prelude.{
  ℕ, ◌≡◌, refl, ◌∙◌, ap, Bool, true, false, Option, none, some, List, [], ◌∷◌, ◌++◌, if◌then◌else◌,
  head?, ==_refl,
}
use my_mtlwallet_bot.Notification.{BlockchainNotification, same_json_iff}
use my_mtlwallet_bot.Redis.{Redis}
use my_mtlwallet_bot.Store.Scripts.{is_head, holds_number}
use my_mtlwallet_bot.Store.Mailbox.{Mailbox, mailbox, clears_due, released, acknowledged}
use my_mtlwallet_bot.Store.Methods
use my_mtlwallet_bot.Store.Methods.{StoreConfig, eval}
use my_mtlwallet_bot.Store.Refines.{
  release_due_hold-released, acknowledge_head_if_lock_owned-acknowledged, release_lock_script-owner,
}
use my_mtlwallet_bot.Store.Refines.Locks.{renew_lock_script-same, clear_immediate_due-clears}
use my_mtlwallet_bot.Coordinator.Queue.{queue-clear_due, queue-release_hold}
use my_mtlwallet_bot.Coordinator.{
  sent, Turn, Course, Progress, go_on, allows, observed_or, gate, hold_allows_flush, settle_sent,
  attempt, clean_up,
}

module _ (r : Redis) (config : StoreConfig) (user : ℕ) where
  abbrev pub box : r.Db → Mailbox
  box db = mailbox (r.view db) user

  -- Others may do anything to other users.
  abbrev pub Keeps : (r.Db → r.Db) → Type 0
  Keeps act = (db : r.Db) → box (act db) ≡ box db

  -- A pass that others, the lease, the clock and the sender let through, under a hold `until`.
  pub record IsQuiet (ignore_hold : Bool) (until : Option ℕ) (turn : Turn r.Db) : Type 0 where
    pub at_peek : Keeps turn.before_peek
    pub at_renew : Keeps turn.before_renew
    pub at_hold : Keeps turn.before_hold
    pub at_send : Keeps turn.during_send
    pub at_release_hold : Keeps turn.before_release_hold
    pub at_clear_due : Keeps turn.before_clear_due
    pub lease_early : turn.lease_lost_early ≡ false
    pub lease_late : turn.lease_lost_late ≡ false
    pub sends : turn.outcome ≡ sent
    pub free : ignore_hold ≡ false → (allows until turn.now).0 ≡ true

  abbrev pub AllQuiet : Bool → Option ℕ → List (Turn r.Db) → Type 0
  AllQuiet ignore_hold until [] = Unit
  AllQuiet ignore_hold until (turn ∷ turns) =
      IsQuiet ignore_hold until turn × AllQuiet ignore_hold until turns

  pub record IsQuietCourse (ignore_hold : Bool) (until : Option ℕ) (course : Course r.Db)
      : Type 0 where
    pub at_gate : Keeps course.before_gate
    pub in_passes : AllQuiet ignore_hold until course.passes
    pub at_release : Keeps course.before_release

  pub gate-open :
      (ignore_hold : Bool) (now : ℕ) (db : r.Db) (until : Option ℕ)
      → (box db).hold_until ≡ until
      → (ignore_hold ≡ false → (allows until now).0 ≡ true)
      → (gate r config user ignore_hold now db).0 ≡ true
  unfolding hold_allows_flush Methods.hold_until
  gate-open true now db until e free = refl
  gate-open false now db until e free = rw (r.get_reply, e) (free refl)

  module _ (token : ℕ) (db : r.Db) (owns : (box db).owner ≡ some token) where
    owned : holds_number (box db).owner token ≡ true
    owned = rw (owns, ==_refl token) refl

    renews :
        ((Methods.renew_lock r config eval user token db).0 ≡ true)
        × (box (Methods.renew_lock r config eval user token db).1 ≡ box db)
    unfolding Methods.renew_lock Methods.atomically
    renews =
        let i = renew_lock_script-same r user db token config.lock_ttl_seconds in
        let j = rw owned at i in (j.reply, j.own)

    pub releases :
        box (Methods.release_lock r config eval user token db).1 ≡ record (box db) { owner = none }
    unfolding Methods.release_lock Methods.atomically
    releases = let i = release_lock_script-owner r user db token in let j = rw owned at i in j.own

    acknowledges :
        (n : BlockchainNotification) (rest : List BlockchainNotification)
        → (box db).queue ≡ n ∷ rest
        → ((Methods.acknowledge_if_lock_owned r config eval user n token db).0 ≡ true)
          × (box (Methods.acknowledge_if_lock_owned r config eval user n token db).1
              ≡ acknowledged n (box db))
    unfolding Methods.acknowledge_if_lock_owned Methods.atomically
    acknowledges n rest e =
        let i = acknowledge_head_if_lock_owned-acknowledged r user db n token in
        let head : is_head (head? (box db).queue) n ≡ true = rw e ((same_json_iff n n).1 refl) in
        let j = rw owned at i in let k = rw head at j in (k.reply, k.own)

  owner-if :
      {A : Type 0} (b : Bool) (y z : A × Mailbox) (o : Option ℕ)
      → y.1.owner ≡ o
      → z.1.owner ≡ o
      → (if b then y else z).1.owner ≡ o
  owner-if true y z o h g = h
  owner-if false y z o h g = g

  owner-clear_due :
      (token now : ℕ) (db : r.Db)
      → (box
          (Methods.clear_immediate_due_if_empty_and_lock_owned r config eval user token now
            db).1).owner
        ≡ (box db).owner
  unfolding Methods.clear_immediate_due_if_empty_and_lock_owned Methods.atomically
  owner-clear_due token now db =
      ap (λ m. m.owner) (clear_immediate_due-clears r user db token now).own
      ∙ owner-if (clears_due token now (box db)) _ _ _ refl refl

  owner-release_hold :
      (expected now : ℕ) (db : r.Db)
      → (box (Methods.release_hold_if_unchanged r config eval user expected now db).1).owner
        ≡ (box db).owner
  unfolding Methods.release_hold_if_unchanged Methods.atomically released
  owner-release_hold expected now db =
      ap (λ m. m.owner) (release_due_hold-released r user db expected now).own
      ∙ owner-if (holds_number (box db).hold_until expected) _ _ _ refl refl

  -- The end of the loop leaves the lock and the empty queue.
  pub clean_up-Keeps :
      (ignore_hold : Bool) (token : ℕ) (turn : Turn r.Db) (expired : Option ℕ) (db : r.Db)
      → Keeps turn.before_release_hold
      → Keeps turn.before_clear_due
      → let db' = clean_up r config user ignore_hold token turn expired db in
        ((box db').owner ≡ (box db).owner) × ((box db').queue ≡ (box db).queue)
  unfolding clean_up
  clean_up-Keeps ignore_hold token turn none db at_release at_clear =
      let cleared = turn.before_clear_due db in
      (
        owner-clear_due token turn.now cleared ∙ ap (λ m. m.owner) (at_clear db),
        queue-clear_due r config user cleared token turn.now ∙ ap (λ m. m.queue) (at_clear db),
      )
  clean_up-Keeps ignore_hold token turn (some e) db at_release at_clear =
      let freed = turn.before_release_hold db in
      let db' = (Methods.release_hold_if_unchanged r config eval user e turn.now freed).1 in
      let cleared = turn.before_clear_due db' in
      (
        owner-clear_due token turn.now cleared
            ∙ ap (λ m. m.owner) (at_clear db')
            ∙ owner-release_hold e turn.now freed
            ∙ ap (λ m. m.owner) (at_release db),
        queue-clear_due r config user cleared token turn.now
            ∙ ap (λ m. m.queue) (at_clear db')
            ∙ queue-release_hold r config user freed e turn.now
            ∙ ap (λ m. m.queue) (at_release db),
      )

  module _ (ignore_hold : Bool) (until : Option ℕ) (token : ℕ) where
    pub attempt-quiet :
        (turn : Turn r.Db) (n : BlockchainNotification) (rest : List BlockchainNotification)
        (expired : Option ℕ) (p : Progress r.Db)
        → IsQuiet ignore_hold until turn
        → (box p.db).owner ≡ some token
        → (box p.db).hold_until ≡ until
        → (box p.db).queue ≡ n ∷ rest
        → (expired' : Option ℕ) × (db' : r.Db) × (attempt r config user ignore_hold token turn n
              expired p
            ≡ go_on expired' (record p {
              db = db';
              delivered = p.delivered ++ n ∷ [];
              acknowledged = p.acknowledged ++ n ∷ [];
              badge_refresh_needed = true;
            }))
          × (box db' ≡ acknowledged n (box p.db))
    unfolding attempt settle_sent
    attempt-quiet turn n rest expired p quiet owns held queue =
        let db₁ = turn.before_renew p.db in
        let owns₁ = ap (λ m. m.owner) (quiet.at_renew p.db) ∙ owns in
        let (renewed, same) = renews token db₁ owns₁ in
        let db₂ = turn.before_hold (Methods.renew_lock r config eval user token db₁).1 in
        let box₂ : box db₂ ≡ box p.db = quiet.at_hold _ ∙ same ∙ quiet.at_renew p.db in
        let free =
          gate-open ignore_hold turn.now db₂ until (ap (λ m. m.hold_until) box₂ ∙ held)
            quiet.free in
        let db₃ = turn.during_send db₂ in
        let box₃ : box db₃ ≡ box p.db = quiet.at_send db₂ ∙ box₂ in
        let (popped, box') =
          acknowledges token db₃ (ap (λ m. m.owner) box₃ ∙ owns) n rest
            (ap (λ m. m.queue) box₃ ∙ queue) in
        (
          observed_or (gate r config user ignore_hold turn.now db₂).1 expired,
          (Methods.acknowledge_if_lock_owned r config eval user n token db₃).1,
          rw (quiet.lease_early, renewed, free, quiet.lease_late, quiet.sends, settle_sent, popped)
              refl,
          box' ∙ ap (acknowledged n) box₃,
        )
