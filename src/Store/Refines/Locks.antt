-- ===== src/Store/Refines/Locks.antt =====
-- The scripts that guard and tidy, and what a lapse of a key shows in a mailbox.
use my_mtlwallet_bot.Prelude.{
  ℕ, refl, true, false, none, some, ◌==◌, ==_refl, if◌then◌else◌, is_some, length, Bool-cases, inl,
  inr,
}
use my_mtlwallet_bot.Redis.{
  Redis, redis_laws, hold, hold_generation, pending, dedupe, flush_lock, due,
}
use my_mtlwallet_bot.Store.Scripts.{
  holds_number, is_due, clear_immediate_due, acquire_lock, renew_lock_script,
}
use my_mtlwallet_bot.Store.Mailbox.{mailbox, clears_due}
use my_mtlwallet_bot.Store.Refines.{
  Implements, Implements-if, Implements-same, ne→==_false, holds_lock,
}
use my_mtlwallet_bot.Store.Methods
use my_mtlwallet_bot.Store.Methods.{StoreConfig}

module _ (r : Redis) (u : ℕ) (db : r.Db) where
  -- `SET key token NX EX ttl`: the lock is taken exactly if nobody owns it.
  pub acquire_lock-owner :
      (token ttl : ℕ)
      → let m = mailbox (r.view db) u in
        Implements r u db
          (acquire_lock r u token ttl db)
          (if is_some m.owner then (false, m) else (true, record m { owner = some token }))
  unfolding acquire_lock
  acquire_lock-owner token ttl = rw (r.set_nx_ex_effect (flush_lock u) token ttl db) (
      Implements-if r u db (is_some ((r.view db).strings (flush_lock u)))
        (is_some (mailbox (r.view db) u).owner) refl (Implements-same r u db false)
        (record {
          reply = refl;
          own = simp (redis_laws, ==_refl);
          others = λ v h. let e = ne→==_false h in simp (redis_laws, e);
        }))

  -- _RENEW_LOCK changes nothing that can be read.
  pub renew_lock_script-same :
      (token ttl : ℕ)
      → let m = mailbox (r.view db) u in
        Implements r u db
          (renew_lock_script r u token ttl db)
          (if holds_number m.owner token then (true, m) else (false, m))
  unfolding renew_lock_script
  renew_lock_script-same token ttl =
      Implements-if r u db _ _ (holds_lock r u db token)
        (record { reply = refl; own = simp redis_laws; others = λ v h. simp redis_laws })
        (Implements-same r u db false)

  -- _CLEAR_IMMEDIATE_DUE_IF_EMPTY_AND_LOCK_OWNED
  pub clear_immediate_due-clears :
      (token now : ℕ)
      → let m = mailbox (r.view db) u in
        Implements r u db
          (clear_immediate_due r u token now db)
          (if clears_due token now m then (true, record m { due_at = none }) else (false, m))
  unfolding clear_immediate_due
  clear_immediate_due-clears token now =
      elim (Bool-cases (holds_number ((r.view db).strings (flush_lock u)) token)) [
        | inr f ↦ simp (redis_laws, f) (Implements-same r u db false)
        | inl own ↦ elim (Bool-cases (length ((r.view db).lists (pending u)) == 0)) [
          | inr f ↦ simp (redis_laws, own, f) (Implements-same r u db false)
          | inl empty ↦ elim (Bool-cases (is_some ((r.view db).strings (hold u)))) [
            | inl t ↦ simp (redis_laws, own, empty, t) (Implements-same r u db false)
            | inr free ↦ elim (Bool-cases (is_due ((r.view db).scores due u) now)) [
              | inl t ↦ simp (redis_laws, own, empty, free, t) cleared
              | inr f ↦ simp (redis_laws, own, empty, free, f) (Implements-same r u db false)
            ]
          ]
        ]
      ]
    where
      cleared :
          Implements r u db
            (true, r.zrem due u db)
            (true, record (mailbox (r.view db) u) { due_at = none })
      cleared = record {
        reply = refl;
        own = simp (redis_laws, ==_refl);
        others = λ v h. let e = ne→==_false h in simp (redis_laws, e);
      }

  -- A key that lapses is missing from its user's mailbox, and nothing else changes.
  pub hold_lapses-none :
      Implements r u db
        (tt, r.lapse (hold u) db)
        (tt, record (mailbox (r.view db) u) { hold_until = none })
  hold_lapses-none = record {
    reply = refl;
    own = simp (redis_laws, ==_refl);
    others = λ v h. let e = ne→==_false h in simp (redis_laws, e);
  }

  pub generation_lapses-none :
      Implements r u db
        (tt, r.lapse (hold_generation u) db)
        (tt, record (mailbox (r.view db) u) { generation = none })
  generation_lapses-none = record {
    reply = refl;
    own = simp (redis_laws, ==_refl);
    others = λ v h. let e = ne→==_false h in simp (redis_laws, e);
  }

  pub dedupe_lapses-none :
      Implements r u db
        (tt, r.lapse (dedupe u) db)
        (tt, record (mailbox (r.view db) u) { seen = λ k. false })
  dedupe_lapses-none = record {
    reply = refl;
    own = simp (redis_laws, ==_refl);
    others = λ v h. let e = ne→==_false h in simp (redis_laws, e);
  }

  pub lock_lapses-none :
      Implements r u db
        (tt, r.lapse (flush_lock u) db)
        (tt, record (mailbox (r.view db) u) { owner = none })
  lock_lapses-none = record {
    reply = refl;
    own = simp (redis_laws, ==_refl);
    others = λ v h. let e = ne→==_false h in simp (redis_laws, e);
  }

module _ (r : Redis) (config : StoreConfig) (u : ℕ) (db : r.Db) where
  -- The three writes of `release`.
  pub release-dropped :
      Implements r u db
        (tt, Methods.release r config Methods.eval u db)
        (tt, record (mailbox (r.view db) u) { hold_until = none; generation = none; due_at = none })
  unfolding Methods.release
  release-dropped = record {
    reply = refl;
    own = simp (redis_laws, ==_refl);
    others = λ v h. let e = ne→==_false h in simp (redis_laws, e);
  }
