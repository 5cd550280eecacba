-- ===== src/Store/Due/Repair.antt =====
-- A poll of the schedule repairs entries and loses none that has work behind it.
use my_mtlwallet_bot.Prelude.{
  ℕ, zero, suc, ◌+◌, ◌≡◌, refl, ◌∙◌, Option, none, some, List, [], ◌∷◌, ◌++◌, arith, ltb, leb, ◌==◌,
  ==_iff, ◌||◌, length, All, Bool-cases, inl, inr,
}
use my_mtlwallet_bot.Notification.{BlockchainNotification}
use my_mtlwallet_bot.Redis.{Redis, Keyspace, hold, pending, due}
use my_mtlwallet_bot.Store.Mailbox.{mailbox}
use my_mtlwallet_bot.Store.Mailbox.Consistent.{IsScheduled}
use my_mtlwallet_bot.Store.Due.{
  Schedule, Verdict, stale, ready, later, verdict, Scan, nothing, sort_user, verdict_of, sort_page,
  scan_pages, remove_stale, reschedule, due_users_script, max_due_scan_pages,
}

module _ (r : Redis) (schedule : Schedule r) (now limit : ℕ) (db : r.Db) where
  -- Every user in the table of stale ones was found so.
  abbrev AreStale : List ℕ → Type 0
  AreStale = All (λ u. verdict_of r schedule now limit u db ≡ stale)

  AreStale-append :
      (us : List ℕ) (u : ℕ)
      → AreStale us
      → verdict_of r schedule now limit u db ≡ stale
      → AreStale (us ++ u ∷ [])
  AreStale-append [] u a e = (e, tt)
  AreStale-append (v ∷ us) u a e = (a.0, AreStale-append us u a.1 e)

  sort_user-AreStale :
      (u : ℕ) (v : Verdict) (s : Scan)
      → verdict_of r schedule now limit u db ≡ v
      → AreStale s.stale_users
      → AreStale (sort_user limit u v s).stale_users
  sort_user-AreStale u stale s e a = AreStale-append s.stale_users u a e
  sort_user-AreStale u (later t) s e a = a
  sort_user-AreStale u ready s e a = elim (Bool-cases (ltb (length s.due_users) limit)) [
    | inl room ↦ rw room a
    | inr full ↦ rw full a
  ]

  sort_page-AreStale :
      (us : List ℕ) (s : Scan)
      → AreStale s.stale_users
      → AreStale (sort_page r schedule now limit us db s).stale_users
  unfolding sort_page
  sort_page-AreStale [] s a = a
  sort_page-AreStale (u ∷ us) s a =
      sort_page-AreStale us (sort_user limit u (verdict_of r schedule now limit u db) s)
        (sort_user-AreStale u (verdict_of r schedule now limit u db) s refl a)

  scan_pages-AreStale :
      (pages offset : ℕ) (s : Scan)
      → AreStale s.stale_users
      → AreStale (scan_pages r schedule now limit pages offset db s).stale_users
  unfolding scan_pages
  scan_pages-AreStale zero offset s a = a
  scan_pages-AreStale (suc pages) offset s a =
      let users = schedule.zrangebyscore now offset limit db in
      let s' = sort_page r schedule now limit users db s in
      let a' = sort_page-AreStale users s a in
      elim (Bool-cases (length users == 0)) [
        | inl none_left ↦ rw none_left a
        | inr some_left ↦
            rw some_left
              (elim (Bool-cases (leb limit (length s'.due_users) || ltb (length users) limit)) [
                | inl last ↦ rw last a'
                | inr more ↦ rw more (scan_pages-AreStale pages (offset + length users) s' a')
              ])
      ]

  stale-idle :
      (h : Option ℕ) (q : List BlockchainNotification)
      → verdict h (length q) now ≡ stale
      → (h ≡ none) × (q ≡ [])
  stale-idle none [] e = (refl, refl)
  stale-idle none (n ∷ q) e = absurd (ground arith)
  stale-idle (some t) q e = absurd (ground arith)

  -- What the repairs keep of a user: the hold and the queue as they were, and a place in the
  -- schedule if either is there.
  module _ (v : ℕ) where
    record IsRepaired (db' : r.Db) : Type 0 where
      hold_until : (r.view db').strings (hold v) ≡ (r.view db).strings (hold v)
      queue : (r.view db').lists (pending v) ≡ (r.view db).lists (pending v)
      scheduled : IsScheduled (mailbox (r.view db') v)

    zrem-IsRepaired :
        (u : ℕ) (db' : r.Db)
        → verdict_of r schedule now limit u db ≡ stale
        → IsRepaired db'
        → IsRepaired (r.zrem due u db')
    zrem-IsRepaired u db' e h = record {
      hold_until = rw (r.zrem_effect due u db') h.hold_until;
      queue = rw (r.zrem_effect due u db') h.queue;
      scheduled = rw (r.zrem_effect due u db') (elim (Bool-cases (u == v)) [
        | inl same ↦
            let idle =
              stale-idle ((r.view db).strings (hold v)) ((r.view db).lists (pending v))
                (rw ((==_iff u v).0 same, r.get_reply, r.llen_reply) at e) in
            record {
              held = λ p. cc (p, h.hold_until, idle.0);
              pends = λ p. absurd (p (h.queue ∙ idle.1));
            }
        | inr other ↦ record {
          held = λ p. rw other (h.scheduled.held p);
          pends = λ p. rw other (h.scheduled.pends p);
        }
      ]);
    }

    zadd-IsRepaired : (u t : ℕ) (db' : r.Db) → IsRepaired db' → IsRepaired (r.zadd due t u db')
    zadd-IsRepaired u t db' h = record {
      hold_until = rw (r.zadd_effect due t u db') h.hold_until;
      queue = rw (r.zadd_effect due t u db') h.queue;
      scheduled = rw (r.zadd_effect due t u db') (elim (Bool-cases (u == v)) [
        | inl same ↦ record { held = λ p. rw same refl; pends = λ p. rw same refl }
        | inr other ↦ record {
          held = λ p. rw other (h.scheduled.held p);
          pends = λ p. rw other (h.scheduled.pends p);
        }
      ]);
    }

    remove_stale-IsRepaired :
        (us : List ℕ) (db' : r.Db)
        → AreStale us
        → IsRepaired db'
        → IsRepaired (remove_stale r schedule now limit us db')
    unfolding remove_stale
    remove_stale-IsRepaired [] db' a h = h
    remove_stale-IsRepaired (u ∷ us) db' a h =
        remove_stale-IsRepaired us (r.zrem due u db') a.1 (zrem-IsRepaired u db' a.0 h)

    reschedule-IsRepaired :
        (us : List (ℕ × ℕ)) (db' : r.Db)
        → IsRepaired db'
        → IsRepaired (reschedule r schedule now limit us db')
    unfolding reschedule
    reschedule-IsRepaired [] db' h = h
    reschedule-IsRepaired ((u, t) ∷ us) db' h =
        reschedule-IsRepaired us (r.zadd due t u db') (zadd-IsRepaired u t db' h)

    pub due_users_script-IsScheduled :
        IsScheduled (mailbox (r.view db) v)
        → IsScheduled (mailbox (r.view (due_users_script r schedule now limit db).1) v)
    unfolding due_users_script
    due_users_script-IsScheduled s =
        let scan = scan_pages r schedule now limit max_due_scan_pages 0 db nothing in
        let start : IsRepaired db = record { hold_until = refl; queue = refl; scheduled = s } in
        let cleaned =
          remove_stale-IsRepaired scan.stale_users db
            (scan_pages-AreStale max_due_scan_pages 0 nothing tt) start in
        let done =
          reschedule-IsRepaired scan.rescheduled_users
            (remove_stale r schedule now limit scan.stale_users db) cleaned in
        done.scheduled

-- What only differs in the schedule.
pub record IsMoved (a b : Keyspace) : Type 0 where
  pub strings : a.strings ≡ b.strings
  pub lists : a.lists ≡ b.lists
  pub sets : a.sets ≡ b.sets

module _ (r : Redis) (schedule : Schedule r) (now limit : ℕ) where
  remove_stale-IsMoved :
      (us : List ℕ) (db : r.Db)
      → IsMoved (r.view (remove_stale r schedule now limit us db)) (r.view db)
  unfolding remove_stale
  remove_stale-IsMoved [] db = record { strings = refl; lists = refl; sets = refl }
  remove_stale-IsMoved (u ∷ us) db =
      let ih = rw (r.zrem_effect due u db) at (remove_stale-IsMoved us (r.zrem due u db)) in
      record { strings = ih.strings; lists = ih.lists; sets = ih.sets }

  reschedule-IsMoved :
      (us : List (ℕ × ℕ)) (db : r.Db)
      → IsMoved (r.view (reschedule r schedule now limit us db)) (r.view db)
  unfolding reschedule
  reschedule-IsMoved [] db = record { strings = refl; lists = refl; sets = refl }
  reschedule-IsMoved ((u, t) ∷ us) db =
      let ih = rw (r.zadd_effect due t u db) at (reschedule-IsMoved us (r.zadd due t u db)) in
      record { strings = ih.strings; lists = ih.lists; sets = ih.sets }

  -- The poll script writes nothing but the schedule.
  pub due_users_script-IsMoved :
      (db : r.Db) → IsMoved (r.view (due_users_script r schedule now limit db).1) (r.view db)
  unfolding due_users_script
  due_users_script-IsMoved db =
      let scan = scan_pages r schedule now limit max_due_scan_pages 0 db nothing in
      let cleaned = remove_stale r schedule now limit scan.stale_users db in
      let a = reschedule-IsMoved scan.rescheduled_users cleaned in
      let b = remove_stale-IsMoved scan.stale_users db in
      record { strings = a.strings ∙ b.strings; lists = a.lists ∙ b.lists; sets = a.sets ∙ b.sets }
