-- ===== src/Coordinator/Queue.antt =====
-- How the store calls of a flush change the user's queue, and the order that a flush keeps.
use mathlib.Core.List.{append_assoc}
use my_mtlwallet_bot.Prelude.{
  ℕ, ◌≤◌, ◌≡◌, refl, sym, ◌∙◌, ap, Bool, true, false, List, [], ◌∷◌, ◌++◌, if◌then◌else◌, length,
  head?, tail, is_some, Bool-cases, ◌⊎◌, inl, inr,
}
use my_mtlwallet_bot.Notification.{BlockchainNotification}
use my_mtlwallet_bot.Redis.{Redis, pending}
use my_mtlwallet_bot.Store.Scripts.{is_head, holds_number}
use my_mtlwallet_bot.Store.Mailbox.{Mailbox, mailbox, clears_due, released, acknowledged}
use my_mtlwallet_bot.Store.Mailbox.Consistent.{is_head-cons}
use my_mtlwallet_bot.Store.Methods
use my_mtlwallet_bot.Store.Methods.{StoreConfig, eval}
use my_mtlwallet_bot.Store.Refines.{
  release_due_hold-released, acknowledge_head_if_lock_owned-acknowledged, release_lock_script-owner,
}
use my_mtlwallet_bot.Store.Refines.Locks.{
  acquire_lock-owner, renew_lock_script-same, clear_immediate_due-clears,
}
use my_mtlwallet_bot.Coordinator.{Turn, Course, Progress}

module _ (r : Redis) (config : StoreConfig) (user : ℕ) where
  abbrev pub queue_of : r.Db → List BlockchainNotification
  queue_of db = (r.view db).lists (pending user)

  -- Others only add to the end of the queue, as accepting an event does; taking from its head is
  -- left to the owner of the flush lock.
  abbrev pub IsAppending : (r.Db → r.Db) → Type 0
  IsAppending act =
      (db : r.Db)
      → (added : List BlockchainNotification) × (queue_of (act db) ≡ queue_of db ++ added)

  pub record IsPolite (turn : Turn r.Db) : Type 0 where
    pub at_peek : IsAppending turn.before_peek
    pub at_renew : IsAppending turn.before_renew
    pub at_hold : IsAppending turn.before_hold
    pub at_send : IsAppending turn.during_send
    pub at_retry : IsAppending turn.before_retry
    pub at_relock : IsAppending turn.after_relock
    pub at_unlock : IsAppending turn.before_unlock
    pub at_release_hold : IsAppending turn.before_release_hold
    pub at_clear_due : IsAppending turn.before_clear_due

  abbrev pub AllPolite : List (Turn r.Db) → Type 0
  AllPolite [] = Unit
  AllPolite (turn ∷ turns) = IsPolite turn × AllPolite turns

  pub record IsPoliteCourse (course : Course r.Db) : Type 0 where
    pub at_gate : IsAppending course.before_gate
    pub in_passes : AllPolite course.passes
    pub at_release : IsAppending course.before_release

  -- The queue `q` that the flush found, with what others added to it, is what was acknowledged and
  -- then what still waits.
  pub record Fifo (q acked : List BlockchainNotification) (db : r.Db) : Type 0 where
    pub added : List BlockchainNotification
    pub split : q ++ added ≡ acked ++ queue_of db

  -- At most the last event sent is not acknowledged.
  abbrev pub AtLeastOnce : Progress r.Db → Type 0
  AtLeastOnce p =
      (unacknowledged : List BlockchainNotification) × (p.delivered
        ≡ p.acknowledged ++ unacknowledged)
      × (length unacknowledged ≤ 1)

  pub record IsOrderly (q : List BlockchainNotification) (p : Progress r.Db) : Type 0 where
    pub fifo : Fifo q p.acknowledged p.db
    pub sends : AtLeastOnce p

  pub record IsSettled (q : List BlockchainNotification) (p : Progress r.Db) : Type 0 where
    pub fifo : Fifo q p.acknowledged p.db
    pub sends : p.delivered ≡ p.acknowledged

  module _ {q acked : List BlockchainNotification} {db db' : r.Db} where
    pub Fifo-append :
        Fifo q acked db
        → (more : List BlockchainNotification) → queue_of db' ≡ queue_of db ++ more
        → Fifo q acked db'
    Fifo-append f more h = record {
      added = f.added ++ more;
      split = rw h (
          sym (append_assoc q f.added more)
          ∙ ap (λ l. l ++ more) f.split
          ∙ append_assoc acked (queue_of db) more);
    }

    pub Fifo-same : Fifo q acked db → queue_of db' ≡ queue_of db → Fifo q acked db'
    Fifo-same f h = record { added = f.added; split = rw h f.split }

    pub Fifo-pop :
        (n : BlockchainNotification)
        → Fifo q acked db
        → queue_of db ≡ n ∷ tail (queue_of db)
        → queue_of db' ≡ tail (queue_of db)
        → Fifo q (acked ++ n ∷ []) db'
    Fifo-pop n f h g = record {
      added = f.added;
      split = rw g (
          f.split
          ∙ ap (λ l. acked ++ l) h
          ∙ sym (append_assoc acked (n ∷ []) (tail (queue_of db))));
    }

  pub act-Fifo :
      {q acked : List BlockchainNotification} {act : r.Db → r.Db} {db : r.Db}
      → IsAppending act
      → Fifo q acked db
      → Fifo q acked (act db)
  act-Fifo {db = db} polite f = let (more, e) = polite db in Fifo-append f more e

  queue-if :
      {A : Type 0} (b : Bool) (y z : A × Mailbox) (q : List BlockchainNotification)
      → y.1.queue ≡ q
      → z.1.queue ≡ q
      → (if b then y else z).1.queue ≡ q
  queue-if true y z q h g = h
  queue-if false y z q h g = g

  queue-released : (now : ℕ) (m : Mailbox) → (released now m).queue ≡ m.queue
  unfolding released
  queue-released now m = refl

  module _ (db : r.Db) where
    abbrev own_box : Mailbox
    own_box = mailbox (r.view db) user

    pub queue-renew_lock :
        (token : ℕ) → queue_of (Methods.renew_lock r config eval user token db).1 ≡ queue_of db
    unfolding Methods.renew_lock Methods.atomically
    queue-renew_lock token =
        ap (λ m. m.queue) (renew_lock_script-same r user db token _).own
        ∙ queue-if (holds_number own_box.owner token) _ _ _ refl refl

    pub queue-release_lock :
        (token : ℕ) → queue_of (Methods.release_lock r config eval user token db).1 ≡ queue_of db
    unfolding Methods.release_lock Methods.atomically
    queue-release_lock token =
        ap (λ m. m.queue) (release_lock_script-owner r user db token).own
        ∙ queue-if (holds_number own_box.owner token) _ _ _ refl refl

    pub queue-acquire_lock :
        (token : ℕ) → queue_of (Methods.acquire_lock r config eval user token db).1 ≡ queue_of db
    unfolding Methods.acquire_lock
    queue-acquire_lock token =
        ap (λ m. m.queue) (acquire_lock-owner r user db token _).own
        ∙ queue-if (is_some own_box.owner) _ _ _ refl refl

    pub queue-clear_due :
        (token now : ℕ)
        → queue_of
            (Methods.clear_immediate_due_if_empty_and_lock_owned r config eval user token now db).1
          ≡ queue_of db
    unfolding Methods.clear_immediate_due_if_empty_and_lock_owned Methods.atomically
    queue-clear_due token now =
        ap (λ m. m.queue) (clear_immediate_due-clears r user db token now).own
        ∙ queue-if (clears_due token now own_box) _ _ _ refl refl

    pub queue-release_hold :
        (expected now : ℕ)
        → queue_of (Methods.release_hold_if_unchanged r config eval user expected now db).1
          ≡ queue_of db
    unfolding Methods.release_hold_if_unchanged Methods.atomically
    queue-release_hold expected now =
        ap (λ m. m.queue) (release_due_hold-released r user db expected now).own
        ∙ queue-if (holds_number own_box.hold_until expected) _ _ _ (queue-released now own_box)
            refl

    queue-acknowledged :
        (n : BlockchainNotification) → (acknowledged n own_box).queue ≡ tail (queue_of db)
    unfolding acknowledged
    queue-acknowledged n = refl

    -- An acknowledgement that succeeds pops the event it names; one that fails changes nothing.
    pub acknowledge_cases :
        (n : BlockchainNotification) (token : ℕ)
        → let (done, db') = Methods.acknowledge_if_lock_owned r config eval user n token db in
          ((done ≡ true)
            × (queue_of db ≡ n ∷ tail (queue_of db))
            × (queue_of db' ≡ tail (queue_of db)))
          ⊎ ((done ≡ false) × (queue_of db' ≡ queue_of db))
    unfolding Methods.acknowledge_if_lock_owned Methods.atomically
    acknowledge_cases n token =
        let i = acknowledge_head_if_lock_owned-acknowledged r user db n token in
        elim (Bool-cases (holds_number own_box.owner token)) [
          | inr f ↦ let j = rw f at i in inr (j.reply, ap (λ m. m.queue) j.own)
          | inl own ↦
              let j = rw own at i in
              elim (Bool-cases (is_head (head? (queue_of db)) n)) [
                | inl t ↦
                    let k = rw t at j in
                    inl (
                      k.reply,
                      is_head-cons n (queue_of db) t,
                      ap (λ m. m.queue) k.own ∙ queue-acknowledged n,
                    )
                | inr f ↦ let k = rw f at j in inr (k.reply, ap (λ m. m.queue) k.own)
              ]
        ]
