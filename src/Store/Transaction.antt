-- ===== src/Store/Transaction.antt =====
-- The retry loop of the `_..._without_lua` methods of
-- bot/infrastructure/services/notification_redis_store.py: WATCH, read, MULTI, EXEC, and again on
-- WatchError. Other clients act between the reads and EXEC, and EXEC applies the queued writes only
-- if no watched key was modified. A method that returns before MULTI answers from a read that
-- failed its test, so the state of that read stands for all its reads.
use my_mtlwallet_bot.Prelude.{
  ℕ, String, ◌≡◌, refl, sym, Bool, true, false, List, [], ◌∷◌, if◌then◌else◌,
}
use my_mtlwallet_bot.Redis.{Redis, Key, Keyspace}

-- What one pass decides from its reads: to return at once, or the writes to queue and the reply.
pub data Plan (S A : Type 0) : Type 0 where
  refuse : A → Plan S A
  commit : (S → S) → A → Plan S A

-- What other clients do between the reads of a pass and its EXEC, and whether EXEC raised
-- WatchError.
pub record Round (S : Type 0) : Type 0 where
  pub after : S → S
  pub aborted : Bool

module _ {S A : Type 0} where
  abbrev undisturbed : Plan S A → S → A × S
  undisturbed (refuse a) s = (a, s)
  undisturbed (commit write a) s = (a, write s)

  -- One pass: `s` was read, `s'` is what EXEC finds, and `again` is the rest of the loop.
  abbrev settle : Plan S A → Bool → S → S → A × S → A × S
  settle (refuse a) aborted s s' again = (a, s)
  settle (commit write a) aborted s s' again = if aborted then again else (a, write s')

  abbrev settled_in : Plan S A → Bool → S → S → S → S
  settled_in (refuse a) aborted s s' later = s
  settled_in (commit write a) aborted s s' later = if aborted then later else s'

  -- `while True: try: ... except WatchError: continue`, over the rounds in which others interfere;
  -- a round is followed by another only if it was aborted.
  unfoldable pub transact : (S → Plan S A) → List (Round S) → S → A × S
  transact plan [] s = undisturbed (plan s) s
  transact plan (round ∷ rounds) s =
      settle (plan s) round.aborted s (round.after s) (transact plan rounds (round.after s))

  -- The state in which the loop takes effect.
  unfoldable pub effect_point : (S → Plan S A) → List (Round S) → S → S
  effect_point plan [] s = s
  effect_point plan (round ∷ rounds) s =
      settled_in (plan s) round.aborted s (round.after s) (effect_point plan rounds (round.after s))

abbrev pub SameAt : Keyspace → Keyspace → Key → Type 0
SameAt a b k =
    (a.strings k ≡ b.strings k)
    × (a.lists k ≡ b.lists k)
    × ((m : String) → a.sets k m ≡ b.sets k m)
    × ((u : ℕ) → a.scores k u ≡ b.scores k u)

abbrev pub SameOn : List Key → Keyspace → Keyspace → Type 0
SameOn [] a b = Unit
SameOn (k ∷ ks) a b = SameAt a b k × SameOn ks a b

-- Two databases that every command reads alike.
pub record SameView (a b : Keyspace) : Type 0 where
  pub strings : (k : Key) → a.strings k ≡ b.strings k
  pub lists : (k : Key) → a.lists k ≡ b.lists k
  pub sets : (k : Key) (m : String) → a.sets k m ≡ b.sets k m
  pub scores : (k : Key) (u : ℕ) → a.scores k u ≡ b.scores k u

pub SameView-refl : (a : Keyspace) → SameView a a
SameView-refl a = record {
  strings = λ k. refl;
  lists = λ k. refl;
  sets = λ k m. refl;
  scores = λ k u. refl;
}

pub SameOn-refl : (ks : List Key) (a : Keyspace) → SameOn ks a a
SameOn-refl [] a = tt
SameOn-refl (k ∷ ks) a = ((refl, refl, λ m. refl, λ u. refl), SameOn-refl ks a)

module _ (r : Redis) where
  -- The promise of WATCH: an EXEC that was not aborted found the watched keys as they were read.
  abbrev pub IsFenced : List Key → List (Round r.Db) → r.Db → Type 0
  IsFenced watched [] db = Unit
  IsFenced watched (round ∷ rounds) db =
      (round.aborted ≡ false → SameOn watched (r.view db) (r.view (round.after db)))
      × IsFenced watched rounds (round.after db)

  -- A pass that read `db` and commits in `db'` does what the script does.
  abbrev pub Follows : {A : Type 0} → (r.Db → A × r.Db) → r.Db → r.Db → Plan r.Db A → Type 0
  Follows script db db' (refuse a) = script db ≡ (a, db)
  Follows script db db' (commit write a) =
      ((script db').0 ≡ a) × SameView (r.view (write db')) (r.view (script db').1)

  -- The loop's outcome against the script's.
  abbrev pub Agrees : {A : Type 0} → A × r.Db → A × r.Db → Type 0
  Agrees x y = (x.0 ≡ y.0) × SameView (r.view x.1) (r.view y.1)

  module _ {A : Type 0} (script : r.Db → A × r.Db) where
    undisturbed-Agrees :
        (db : r.Db) (p : Plan r.Db A)
        → Follows script db db p
        → Agrees (undisturbed p db) (script db)
    undisturbed-Agrees db (refuse a) h = rw h (refl, SameView-refl (r.view db))
    undisturbed-Agrees db (commit write a) h = (sym h.0, h.1)

    settle-Agrees :
        (db db' : r.Db) (again : A × r.Db) (later : r.Db) (p : Plan r.Db A) (aborted : Bool)
        → Follows script db db p
        → (aborted ≡ false → Follows script db db' p)
        → Agrees again (script later)
        → Agrees (settle p aborted db db' again) (script (settled_in p aborted db db' later))
    settle-Agrees db db' again later (refuse a) aborted h g ih =
        rw h (refl, SameView-refl (r.view db))
    settle-Agrees db db' again later (commit write a) true h g ih = ih
    settle-Agrees db db' again later (commit write a) false h g ih =
        let f = g refl in (sym f.0, f.1)

  module _ {A : Type 0} (watched : List Key) (plan : r.Db → Plan r.Db A) (script : r.Db → A × r.Db)
      (follows : (db db' : r.Db)
        → SameOn watched (r.view db) (r.view db')
        → Follows script db db' (plan db)) where
    -- Whatever other clients do, the loop's reply and its effect are those of the script run once,
    -- atomically, in one of the states that the server went through.
    pub transact-Agrees :
        (rounds : List (Round r.Db)) (db : r.Db)
        → IsFenced watched rounds db
        → Agrees (transact plan rounds db) (script (effect_point plan rounds db))
    unfolding transact effect_point
    transact-Agrees [] db f =
        undisturbed-Agrees script db (plan db) (follows db db (SameOn-refl watched (r.view db)))
    transact-Agrees (round ∷ rounds) db f =
        let db' = round.after db in
        settle-Agrees script db db' (transact plan rounds db') (effect_point plan rounds db')
          (plan db) round.aborted (follows db db (SameOn-refl watched (r.view db)))
          (λ e. follows db db' (f.0 e)) (transact-Agrees rounds db' f.1)
