-- ===== src/Coordinator/Fifo.antt =====
-- A flush takes from the head of the queue, in order, and only what it has sent.
use mathlib.Core.List.{append-nil}
use my_mtlwallet_bot.Prelude.{
  ℕ, ◌≡◌, refl, sym, ◌∙◌, ap, Bool, true, false, Option, none, some, List, [], ◌∷◌, ◌++◌, arith,
  not, if◌then◌else◌, Bool-cases, Option-cases, ◌⊎◌, inl, inr,
}
use my_mtlwallet_bot.Notification.{BlockchainNotification}
use my_mtlwallet_bot.Redis.{Redis}
use my_mtlwallet_bot.Store.Methods
use my_mtlwallet_bot.Store.Methods.{StoreConfig, eval}
use my_mtlwallet_bot.Coordinator.Queue.{
  queue_of, IsPolite, AllPolite, Fifo, IsOrderly, IsSettled, Fifo-same, Fifo-pop, act-Fifo,
  queue-renew_lock, queue-release_lock, queue-acquire_lock, queue-clear_due, queue-release_hold,
  acknowledge_cases,
}
use my_mtlwallet_bot.Coordinator.{
  Outcome, sent, Turn, Progress, Step, stop, go_on, observed_or, gate, acknowledge_after_lease_loss,
  settle_sent, settle, attempt, clean_up, deliver,
}

module _ (r : Redis) (config : StoreConfig) (user : ℕ) where
  abbrev queue : r.Db → List BlockchainNotification
  queue = queue_of r config user

  -- The second try pops the event that it names, and acknowledges it, or pops nothing.
  retry_cases :
      {q acked : List BlockchainNotification} (db : r.Db) (n : BlockchainNotification)
      (turn : Turn r.Db)
      → IsPolite r config user turn
      → Fifo r config user q acked db
      → let (done, db') = acknowledge_after_lease_loss r config user turn n db in
        ((done ≡ true) × Fifo r config user q (acked ++ n ∷ []) db')
        ⊎ ((done ≡ false) × Fifo r config user q acked db')
  unfolding acknowledge_after_lease_loss
  retry_cases db n turn polite f =
      let token = turn.spare_token in
      let locked = (Methods.acquire_lock r config eval user token db).1 in
      let f₁ = Fifo-same r config user f (queue-acquire_lock r config user db token) in
      let relocked = turn.after_relock locked in
      let f₂ = act-Fifo r config user polite.at_relock f₁ in
      let popped = (Methods.acknowledge_if_lock_owned r config eval user n token relocked).1 in
      let freed = queue-release_lock r config user (turn.before_unlock popped) token in
      elim (Bool-cases (Methods.acquire_lock r config eval user token db).0) [
        | inr free ↦ inr (rw free (refl, f₁))
        | inl taken ↦ elim (acknowledge_cases r config user relocked n token) [
          | inl (done, head, rest) ↦
              let g =
                act-Fifo r config user polite.at_unlock (Fifo-pop r config user n f₂ head rest) in
              inl (rw (taken, done) (refl, Fifo-same r config user g freed))
          | inr (lost, kept) ↦
              let g = act-Fifo r config user polite.at_unlock (Fifo-same r config user f₂ kept) in
              inr (rw (taken, lost) (refl, Fifo-same r config user g freed))
        ]
      ]

  abbrev StepOrderly : List BlockchainNotification → Step r.Db → Type 0
  StepOrderly q (stop p) = IsOrderly r config user q p
  StepOrderly q (go_on expired p) = IsSettled r config user q p

  pub IsSettled-IsOrderly :
      {q : List BlockchainNotification} {p : Progress r.Db}
      → IsSettled r config user q p
      → IsOrderly r config user q p
  IsSettled-IsOrderly {p = p} s = record {
    fifo = s.fifo;
    sends = ([], s.sends ∙ sym (append-nil p.acknowledged), omega arith);
  }

  step_if :
      (q : List BlockchainNotification) (b : Bool) (x y : Step r.Db)
      → StepOrderly q x
      → StepOrderly q y
      → StepOrderly q (if b then x else y)
  step_if q true x y h g = h
  step_if q false x y h g = g

  module _ (ignore_hold : Bool) (token : ℕ) (q : List BlockchainNotification) where
    settle_sent-StepOrderly :
        (turn : Turn r.Db) (n : BlockchainNotification) (expired : Option ℕ) (p : Progress r.Db)
        → IsPolite r config user turn
        → IsSettled r config user q p
        → StepOrderly q (settle_sent r config user ignore_hold token turn n expired p)
    unfolding settle_sent
    settle_sent-StepOrderly turn n expired p polite s =
        let db₀ = turn.during_send p.db in
        let f = act-Fifo r config user polite.at_send s.fifo in
        let sent_n = ap (λ l. l ++ n ∷ []) s.sends in
        elim (acknowledge_cases r config user db₀ n token) [
          | inl (done, head, rest) ↦
              rw done (record { fifo = Fifo-pop r config user n f head rest; sends = sent_n })
          | inr (lost, kept) ↦
              let db₁ =
                turn.before_retry
                  (Methods.acknowledge_if_lock_owned r config eval user n token db₀).1 in
              let g = act-Fifo r config user polite.at_retry (Fifo-same r config user f kept) in
              elim (retry_cases db₁ n turn polite g) [
                | inl (again, popped) ↦
                    rw (lost, again)
                      (record {
                        fifo = popped;
                        sends =
                            ([], sent_n ∙ sym (append-nil (p.acknowledged ++ n ∷ [])), omega arith);
                      })
                | inr (not_again, same) ↦
                    rw (lost, not_again)
                      (record {
                        fifo = rw append-nil same;
                        sends = (n ∷ [], rw append-nil sent_n, omega arith);
                      })
              ]
        ]

    -- A pass that stops before the send leaves the queue to others.
    pub stopped :
        {p : Progress r.Db} (db : r.Db) (needed : Bool)
        → IsSettled r config user q p
        → Fifo r config user q p.acknowledged db
        → IsOrderly r config user q (record p { db = db; badge_refresh_needed = needed })
    stopped {p} db needed s f = record {
      fifo = f;
      sends = ([], s.sends ∙ sym (append-nil p.acknowledged), omega arith);
    }

    settle-StepOrderly :
        (outcome : Outcome) (turn : Turn r.Db) (n : BlockchainNotification) (expired : Option ℕ)
        (p : Progress r.Db)
        → IsPolite r config user turn
        → IsSettled r config user q p
        → StepOrderly q (settle r config user ignore_hold token outcome turn n expired p)
    settle-StepOrderly sent turn n expired p polite s =
        settle_sent-StepOrderly turn n expired p polite s
    settle-StepOrderly _ turn n expired p polite s =
        stopped _ _ s (act-Fifo r config user polite.at_send s.fifo)

    attempt-StepOrderly :
        (turn : Turn r.Db) (n : BlockchainNotification) (expired : Option ℕ) (p : Progress r.Db)
        → IsPolite r config user turn
        → IsSettled r config user q p
        → StepOrderly q (attempt r config user ignore_hold token turn n expired p)
    unfolding attempt
    attempt-StepOrderly turn n expired p polite s =
        let db₁ = turn.before_renew p.db in
        let renewed = (Methods.renew_lock r config eval user token db₁).1 in
        let f =
          Fifo-same r config user (act-Fifo r config user polite.at_renew s.fifo)
            (queue-renew_lock r config user db₁ token) in
        let held = turn.before_hold renewed in
        let g = act-Fifo r config user polite.at_hold f in
        let needed = p.badge_refresh_needed in
        let late =
          settle-StepOrderly turn.outcome turn n
            (observed_or (gate r config user ignore_hold turn.now held).1 expired)
            (record p { db = held }) polite (record { fifo = g; sends = s.sends }) in
        step_if q turn.lease_lost_early _ _ (IsSettled-IsOrderly s) (
          step_if q (not (Methods.renew_lock r config eval user token db₁).0) _ _
            (stopped renewed needed s f)
            (step_if q (not (gate r config user ignore_hold turn.now held).0) _ _
              (stopped held needed s g)
              (step_if q turn.lease_lost_late _ _ (stopped held needed s g) late)))

    clean_up-Fifo :
        {acked : List BlockchainNotification} (turn : Turn r.Db) (expired : Option ℕ) (db : r.Db)
        → IsPolite r config user turn
        → Fifo r config user q acked db
        → Fifo r config user q acked (clean_up r config user ignore_hold token turn expired db)
    unfolding clean_up
    clean_up-Fifo turn none db polite f =
        Fifo-same r config user (act-Fifo r config user polite.at_clear_due f)
          (queue-clear_due r config user (turn.before_clear_due db) token turn.now)
    clean_up-Fifo turn (some e) db polite f =
        let freed = turn.before_release_hold db in
        let db' = (Methods.release_hold_if_unchanged r config eval user e turn.now freed).1 in
        let g =
          Fifo-same r config user (act-Fifo r config user polite.at_release_hold f)
            (queue-release_hold r config user freed e turn.now) in
        Fifo-same r config user (act-Fifo r config user polite.at_clear_due g)
          (queue-clear_due r config user (turn.before_clear_due db') token turn.now)

    next :
        (turns : List (Turn r.Db)) (step : Step r.Db)
        → StepOrderly q step
        → ((expired : Option ℕ) (p : Progress r.Db)
            → IsSettled r config user q p
            → IsOrderly r config user q (deliver r config user ignore_hold token turns expired p))
        → IsOrderly r config user q (elim step [
          | stop p ↦ p
          | go_on expired p ↦ deliver r config user ignore_hold token turns expired p
        ])
    next _ (stop p) s go = s
    next _ (go_on expired p) s go = go expired p s

    pub deliver-IsOrderly :
        (turns : List (Turn r.Db)) (expired : Option ℕ) (p : Progress r.Db)
        → AllPolite r config user turns
        → IsSettled r config user q p
        → IsOrderly r config user q (deliver r config user ignore_hold token turns expired p)
    unfolding deliver
    deliver-IsOrderly [] expired p polite s = stopped p.db false s s.fifo
    deliver-IsOrderly (turn ∷ turns) expired p polite s =
        let seen = record p { db = turn.before_peek p.db } in
        let f = act-Fifo r config user polite.0.at_peek s.fifo in
        let t : IsSettled r config user q seen = record { fifo = f; sends = s.sends } in
        elim (Option-cases (Methods.peek r config eval user seen.db)) [
          | inl e ↦
              rw (e, deliver)
                (stopped (clean_up r config user ignore_hold token turn expired seen.db)
                  p.badge_refresh_needed s (clean_up-Fifo turn expired seen.db polite.0 f))
          | inr (n, e) ↦
              rw (e, deliver)
                (next turns (attempt r config user ignore_hold token turn n expired seen)
                  (attempt-StepOrderly turn n expired seen polite.0 t)
                  (λ expired' p' s'. deliver-IsOrderly turns expired' p' polite.1 s'))
        ]
