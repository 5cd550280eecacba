-- ===== src/Coordinator/Flow/Accept.antt =====
-- Accepting an event: it is refused as a duplicate, or it is delivered or still queued.
use mathlib.Core.List.{append_assoc}
use my_mtlwallet_bot.Prelude.{
  ℕ, ◌≡◌, refl, sym, ap, ◌∙◌, true, false, some, List, [], ◌∷◌, ◌++◌, ==_refl, is_some, Bool-cases,
  inl, inr,
}
use my_mtlwallet_bot.Notification.{BlockchainNotification}
use my_mtlwallet_bot.Redis.{Redis}
use my_mtlwallet_bot.Store.Scripts.{direct, is_active}
use my_mtlwallet_bot.Store.Mailbox.{Mailbox, mailbox, is_known_to, accepted, appended}
use my_mtlwallet_bot.Store.Methods
use my_mtlwallet_bot.Store.Methods.{Result, ok, value_error, StoreConfig, eval}
use my_mtlwallet_bot.Store.Refines.{Implements, claim_accept_script-accepted}
use my_mtlwallet_bot.Coordinator.{Course}
use my_mtlwallet_bot.Coordinator.Queue.{queue_of, IsPoliteCourse}
use my_mtlwallet_bot.Coordinator.Flush.{flush-locked, flush-IsOrderly}
use my_mtlwallet_bot.Coordinator.Flow.{
  Acceptance, ignored, badge_refreshed, flushed, accept, after_claim,
}

-- What a call of `accept` acknowledged, all of it in the flush it made.
abbrev pub acknowledged_by : {S : Type 0} → Acceptance S → List BlockchainNotification
acknowledged_by (flushed (some p)) = p.acknowledged
acknowledged_by _ = []

module _ (r : Redis) (config : StoreConfig) (n : BlockchainNotification) where
  abbrev box : r.Db → Mailbox
  box db = mailbox (r.view db) n.user_id

  claim-accepted :
      (now : ℕ) (db : r.Db)
      → let (reply, m) = accepted n now (box db) in
        Implements r n.user_id db
          (Methods.claim_accept r config eval n.user_id n now db)
          (ok reply, m)
  unfolding Methods.claim_accept Methods.atomically
  claim-accepted now db =
      let i = claim_accept_script-accepted r n.user_id db n config.dedupe_ttl_seconds now in
      rw (==_refl n.user_id) (record { reply = ap ok i.reply; own = i.own; others = i.others })

  -- accept of an event whose key was seen within the dedupe window or still waits is ignored, and
  -- leaves the user's mailbox as it was.
  pub accept-duplicate :
      (token now : ℕ) (course : Course r.Db) (db : r.Db)
      → is_known_to n (box db) ≡ true
      → ((accept r config n token now course db).0 ≡ ok ignored)
        × (box (accept r config n token now course db).1 ≡ box db)
  unfolding accept accepted
  accept-duplicate token now course db known =
      let i = claim-accepted now db in let j = rw known at i in rw (j.reply, accept) (refl, j.own)

  module _ (token now : ℕ) (course : Course r.Db)
      (polite : IsPoliteCourse r config n.user_id course) where
    abbrev IsKept : List BlockchainNotification → Acceptance r.Db → r.Db → Type 0
    IsKept before x db' =
        (later : List BlockchainNotification) × (before ++ n ∷ later
          ≡ acknowledged_by x ++ queue_of r config n.user_id db')

    flushed-IsKept :
        (before : List BlockchainNotification) (claimed : r.Db)
        → queue_of r config n.user_id claimed ≡ before ++ n ∷ []
        → let (x, db') = after_claim r config n token now course direct claimed in
          IsKept before x db'
    unfolding after_claim
    flushed-IsKept before claimed e =
        elim (Bool-cases (is_some (mailbox (r.view claimed) n.user_id).owner)) [
          | inl t ↦
              rw (flush-locked r config n.user_id false token now course claimed t, after_claim)
                ([], sym e)
          | inr f ↦
              let (p, h, o) =
                flush-IsOrderly r config n.user_id false token now course claimed f polite in
              rw (h, after_claim)
                (
                  o.fifo.added,
                  sym (append_assoc before (n ∷ []) o.fifo.added)
                      ∙ ap (λ q. q ++ o.fifo.added) (sym e)
                      ∙ o.fifo.split,
                )
        ]

    -- accept of an event that is neither seen nor waiting returns a result, and the event stands
    -- after the queue it found: what the flush that accept makes acknowledged, followed by what
    -- still waits, is the old queue, the event, and what others appended later. Others act during
    -- that flush only, and only append to the queue.
    pub accept-IsKept :
        (db : r.Db)
        → is_known_to n (box db) ≡ false
        → let (reply, db') = accept r config n token now course db in
          (x : Acceptance r.Db) × (reply ≡ ok x) × IsKept (queue_of r config n.user_id db) x db'
    unfolding accept accepted appended after_claim
    accept-IsKept db fresh =
        let i = claim-accepted now db in
        let j = rw fresh at i in
        elim (Bool-cases (is_active (box db).hold_until now)) [
          | inl t ↦
              let k = rw t at j in
              rw (k.reply, accept) (badge_refreshed, refl, ([], sym (ap (λ m. m.queue) k.own)))
          | inr f ↦
              let k = rw f at j in
              rw (k.reply, accept) (_, refl, flushed-IsKept _ _ (ap (λ m. m.queue) k.own))
        ]
