-- ===== src/Coordinator/Drain.antt =====
-- A flush that nobody disturbs empties the queue.
use Prim.{absurd}
use mathlib.Core.List.{append_assoc, append-nil}
use my_mtlwallet_bot.Prelude.{
  ℕ, suc, ◌<◌, ◌≡◌, refl, sym, ◌∙◌, ap, List-cases, Bool, true, false, Option, none, some, List, [],
  ◌∷◌, ◌++◌, arith, length, head?, tail, is_some, inl, inr,
}
use my_mtlwallet_bot.Redis.{Redis, pending}
use my_mtlwallet_bot.Store.Mailbox.{Mailbox, mailbox, acknowledged}
use my_mtlwallet_bot.Store.Methods
use my_mtlwallet_bot.Store.Methods.{StoreConfig, eval}
use my_mtlwallet_bot.Store.Refines.Locks.{acquire_lock-owner}
use my_mtlwallet_bot.Coordinator.Quiet.{
  AllQuiet, IsQuietCourse, gate-open, releases, clean_up-Keeps, attempt-quiet,
}
use my_mtlwallet_bot.Coordinator.{
  Turn, Course, Progress, allows, gate, deliver, flush_owned, flush_with_owned_lock, flush,
}

module _ (r : Redis) (config : StoreConfig) (user : ℕ) where
  abbrev box : r.Db → Mailbox
  box db = mailbox (r.view db) user

  module _ (ignore_hold : Bool) (until : Option ℕ) (token : ℕ) where
    -- The loop sends what waits, in order, and stops on the empty queue.
    abbrev Drained : Progress r.Db → Progress r.Db → Type 0
    Drained p p' =
        (p'.delivered ≡ p.delivered ++ (box p.db).queue)
        × (p'.acknowledged ≡ p.acknowledged ++ (box p.db).queue)
        × ((box p'.db).queue ≡ [])
        × ((box p'.db).owner ≡ some token)

    peeks : (db : r.Db) → Methods.peek r config eval user db ≡ head? (box db).queue
    unfolding Methods.peek
    peeks db = r.lindex_reply (pending user) db

    module _ {A : Type 0} where
      ends : (l : List A) {q : List A} → q ≡ [] → l ≡ l ++ q
      ends l e = rw (e, append-nil) refl

      pushes :
          (l : List A) (a : A) {q rest q' : List A}
          → q' ≡ rest
          → q ≡ a ∷ rest
          → (l ++ a ∷ []) ++ q' ≡ l ++ q
      pushes l a e f = rw (e, f) (append_assoc l (a ∷ []) _)

      shorter :
          {a : A} {q rest q' : List A} {n : ℕ}
          → q' ≡ rest
          → q ≡ a ∷ rest
          → length q < suc n
          → length q' < n
      shorter e f h = let g = rw f at h in rw e (omega arith)

    deliver-Drained :
        (turns : List (Turn r.Db)) (expired : Option ℕ) (p : Progress r.Db)
        → AllQuiet r config user ignore_hold until turns
        → (box p.db).owner ≡ some token
        → (box p.db).hold_until ≡ until
        → length (box p.db).queue < length turns
        → Drained p (deliver r config user ignore_hold token turns expired p)
    unfolding deliver acknowledged
    deliver-Drained [] expired p quiet owns held enough = absurd (omega arith)
    deliver-Drained (turn ∷ turns) expired p quiet owns held enough =
        let seen = record p { db = turn.before_peek p.db } in
        let same = quiet.0.at_peek p.db in
        let owns' = ap (λ m. m.owner) same ∙ owns in
        let held' = ap (λ m. m.hold_until) same ∙ held in
        let queue' = ap (λ m. m.queue) same in
        elim (List-cases (box seen.db).queue) [
          | inl e ↦
              let none_left : Methods.peek r config eval user seen.db ≡ none =
                peeks seen.db ∙ ap head? e in
              let kept =
                clean_up-Keeps r config user ignore_hold token turn expired seen.db
                  quiet.0.at_release_hold quiet.0.at_clear_due in
              rw (none_left, deliver)
                (
                  ends p.delivered (sym queue' ∙ e),
                  ends p.acknowledged (sym queue' ∙ e),
                  kept.1 ∙ e,
                  kept.0 ∙ owns',
                )
          | inr (n, rest, e) ↦
              let head : Methods.peek r config eval user seen.db ≡ some n =
                peeks seen.db ∙ ap head? e in
              let (expired', db', step, box') =
                attempt-quiet r config user ignore_hold until token turn n rest expired seen quiet.0
                  owns' held' e in
              let rest' = ap (λ m. m.queue) box' ∙ ap tail e in
              let all = sym queue' ∙ e in
              let d =
                deliver-Drained turns expired' _ quiet.1 (ap (λ m. m.owner) box' ∙ owns')
                  (ap (λ m. m.hold_until) box' ∙ held') (shorter rest' all enough) in
              rw (head, step, deliver)
                (
                  d.0 ∙ pushes p.delivered n rest' all,
                  d.1 ∙ pushes p.acknowledged n rest' all,
                  d.2,
                  d.3,
                )
        ]

    abbrev Emptied : r.Db → Progress r.Db → Type 0
    Emptied db p =
        (p.delivered ≡ (box db).queue)
        × (p.acknowledged ≡ (box db).queue)
        × ((box p.db).queue ≡ [])
        × ((box p.db).owner ≡ none)

    flush_with_owned_lock-Emptied :
        (now : ℕ) (course : Course r.Db) (db : r.Db)
        → IsQuietCourse r config user ignore_hold until course
        → (box db).owner ≡ some token
        → (box db).hold_until ≡ until
        → (ignore_hold ≡ false → (allows until now).0 ≡ true)
        → length (box db).queue < length course.passes
        → Emptied db (flush_with_owned_lock r config user ignore_hold token now course db)
    unfolding flush_with_owned_lock flush_owned
    flush_with_owned_lock-Emptied now course db quiet owns held free enough =
        let seen = course.before_gate db in
        let same = quiet.at_gate db in
        let queue = ap (λ m. m.queue) same in
        let held' = ap (λ m. m.hold_until) same ∙ held in
        let opened = gate-open r config user ignore_hold now seen until held' free in
        let expired = (gate r config user ignore_hold now seen).1 in
        let d =
          deliver-Drained course.passes expired
            (record {
              db = seen;
              delivered = [];
              acknowledged = [];
              badge_refresh_needed = false;
              badge_refreshes = 0;
            })
            quiet.in_passes (ap (λ m. m.owner) same ∙ owns) held' (rw queue enough) in
        let end_ = quiet.at_release _ in
        let freed = releases r config user token _ (ap (λ m. m.owner) end_ ∙ d.3) in
        rw (opened, flush_owned)
          (
            d.0 ∙ queue,
            d.1 ∙ queue,
            ap (λ m. m.queue) freed ∙ ap (λ m. m.queue) end_ ∙ d.2,
            ap (λ m. m.owner) freed,
          )

    -- A flush that finds the lock free and no active hold in its way, during which others leave
    -- the user's keys alone and every send succeeds within its lease, sends every waiting event
    -- in order, acknowledges each, and leaves the queue empty and the lock free; a pass more than
    -- there are events is enough.
    pub flush-Emptied :
        (now : ℕ) (course : Course r.Db) (db : r.Db)
        → IsQuietCourse r config user ignore_hold until course
        → (box db).owner ≡ none
        → (box db).hold_until ≡ until
        → (ignore_hold ≡ false → (allows until now).0 ≡ true)
        → length (box db).queue < length course.passes
        → (p : Progress r.Db) × (flush r config user ignore_hold token now course db ≡ some p)
          × Emptied db p
    unfolding flush Methods.acquire_lock
    flush-Emptied now course db quiet lock held free enough =
        let i = acquire_lock-owner r user db token config.lock_ttl_seconds in
        let locked = (Methods.acquire_lock r config eval user token db).1 in
        let unlocked : is_some (box db).owner ≡ false = rw lock refl in
        let j = rw unlocked at i in
        let queue = ap (λ m. m.queue) j.own in
        let e =
          flush_with_owned_lock-Emptied now course locked quiet (ap (λ m. m.owner) j.own)
            (ap (λ m. m.hold_until) j.own ∙ held) free (rw queue enough) in
        (
          flush_with_owned_lock r config user ignore_hold token now course locked,
          rw j.reply refl,
          (e.0 ∙ queue, e.1 ∙ queue, e.2, e.3),
        )
