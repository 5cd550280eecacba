-- ===== src/Redis.antt =====
-- The Redis server as the notification store uses it: keys, commands and their documented effect.
-- The server is not part of the repository, so it is a record of commands, and its laws say what
-- each command replies and how it changes what later commands reply. A record of this kind is an
-- argument of every definition that talks to Redis.

pub mod Memory
pub mod Indexed
use text.Mathlib.Text.{◌==◌ as str_eq}
use my_mtlwallet_bot.Prelude.{
  ℕ, ◌+◌, String, ◌≡◌, Bool, true, false, Option, none, some, List, [], ◌∷◌, ◌++◌, ◌==◌,
  if◌then◌else◌, length, is_some, head?, tail,
}
use my_mtlwallet_bot.Notification.{BlockchainNotification}

-- The keys that `_hold_key`, `_pending_key` and their neighbours build, one constructor to a name.
-- The key prefix of a store is fixed, and the names differ before the user id begins.
pub data Key : Type 0 where
  hold : ℕ → Key
  hold_generation : ℕ → Key
  hold_generation_sequence : Key
  pending : ℕ → Key
  dedupe : ℕ → Key
  pending_ids : ℕ → Key
  flush_lock : ℕ → Key
  due : Key

abbrev pub key_eq : Key → Key → Bool
key_eq (hold u) (hold v) = u == v
key_eq (hold_generation u) (hold_generation v) = u == v
key_eq hold_generation_sequence hold_generation_sequence = true
key_eq (pending u) (pending v) = u == v
key_eq (dedupe u) (dedupe v) = u == v
key_eq (pending_ids u) (pending_ids v) = u == v
key_eq (flush_lock u) (flush_lock v) = u == v
key_eq due due = true
key_eq _ _ = false

-- What can be read: a string value is a number (a deadline, a generation, or the number that a
-- hexadecimal lock token writes), a list holds notifications, a set holds texts, and a sorted set
-- gives a member, a user id, its score.
pub record Keyspace : Type 0 where
  pub strings : Key → Option ℕ
  pub lists : Key → List BlockchainNotification
  pub sets : Key → String → Bool
  pub scores : Key → ℕ → Option ℕ

abbrev pub update {ℓ} : {A : Type ℓ} → (Key → A) → Key → A → Key → A
update f k a j = if key_eq k j then a else f j

abbrev pub with_member : (String → Bool) → String → Bool → String → Bool
with_member f m b s = if str_eq m s then b else f s

abbrev pub with_score : (ℕ → Option ℕ) → ℕ → Option ℕ → ℕ → Option ℕ
with_score f u o v = if u == v then o else f v

abbrev pub next_number : Option ℕ → ℕ
next_number none = 1
next_number (some n) = n + 1

pub record Redis : Type 1 where
  pub Db : Type 0
  pub view : Db → Keyspace
  pub get : Key → Db → Option ℕ
  pub llen : Key → Db → ℕ
  pub lindex_head : Key → Db → Option BlockchainNotification
  pub sismember : Key → String → Db → Bool
  pub zscore : Key → ℕ → Db → Option ℕ
  -- SET with EX, SET, DEL, EXPIRE, INCR
  pub set_ex : Key → ℕ → ℕ → Db → Db
  pub set : Key → ℕ → Db → Db
  -- SET with NX and EX: whether the key was free
  pub set_nx_ex : Key → ℕ → ℕ → Db → Bool × Db
  pub del : Key → Db → Db
  pub expire : Key → ℕ → Db → Db
  pub incr : Key → Db → Db
  pub rpush : Key → BlockchainNotification → Db → Db
  pub lpop : Key → Db → Db
  pub sadd : Key → String → Db → Db
  pub srem : Key → String → Db → Db
  -- ZADD key score member, ZREM key member
  pub zadd : Key → ℕ → ℕ → Db → Db
  pub zrem : Key → ℕ → Db → Db
  -- What happens to a key whose time to live has run out.
  pub lapse : Key → Db → Db
  -- The laws: what each command replies, and what it changes.
  pub get_reply : (k : Key) (db : Db) → get k db ≡ (view db).strings k
  pub llen_reply : (k : Key) (db : Db) → llen k db ≡ length ((view db).lists k)
  pub lindex_reply : (k : Key) (db : Db) → lindex_head k db ≡ head? ((view db).lists k)
  pub sismember_reply : (k : Key) (m : String) (db : Db) → sismember k m db ≡ (view db).sets k m
  pub zscore_reply : (k : Key) (u : ℕ) (db : Db) → zscore k u db ≡ (view db).scores k u
  pub set_ex_effect :
      (k : Key) (n ttl : ℕ) (db : Db)
      → view (set_ex k n ttl db)
        ≡ record (view db) { strings = update (view db).strings k (some n) }
  pub set_effect :
      (k : Key) (n : ℕ) (db : Db)
      → view (set k n db) ≡ record (view db) { strings = update (view db).strings k (some n) }
  pub set_nx_ex_effect :
      (k : Key) (n ttl : ℕ) (db : Db)
      → set_nx_ex k n ttl db
        ≡ (if is_some ((view db).strings k) then (false, db) else (true, set_ex k n ttl db))
  pub del_effect :
      (k : Key) (db : Db)
      → view (del k db) ≡ record (view db) { strings = update (view db).strings k none }
  pub expire_effect : (k : Key) (ttl : ℕ) (db : Db) → view (expire k ttl db) ≡ view db
  pub incr_effect :
      (k : Key) (db : Db)
      → view (incr k db) ≡ record (view db) {
        strings = update (view db).strings k (some (next_number ((view db).strings k)));
      }
  pub rpush_effect :
      (k : Key) (n : BlockchainNotification) (db : Db)
      → view (rpush k n db)
        ≡ record (view db) { lists = update (view db).lists k ((view db).lists k ++ n ∷ []) }
  pub lpop_effect :
      (k : Key) (db : Db)
      → view (lpop k db)
        ≡ record (view db) { lists = update (view db).lists k (tail ((view db).lists k)) }
  pub sadd_effect :
      (k : Key) (m : String) (db : Db)
      → view (sadd k m db) ≡ record (view db) {
        sets = update (view db).sets k (with_member ((view db).sets k) m true);
      }
  pub srem_effect :
      (k : Key) (m : String) (db : Db)
      → view (srem k m db) ≡ record (view db) {
        sets = update (view db).sets k (with_member ((view db).sets k) m false);
      }
  pub zadd_effect :
      (k : Key) (score u : ℕ) (db : Db)
      → view (zadd k score u db) ≡ record (view db) {
        scores = update (view db).scores k (with_score ((view db).scores k) u (some score));
      }
  pub zrem_effect :
      (k : Key) (u : ℕ) (db : Db)
      → view (zrem k u db) ≡ record (view db) {
        scores = update (view db).scores k (with_score ((view db).scores k) u none);
      }
  pub lapse_effect :
      (k : Key) (db : Db)
      → view (lapse k db) ≡ record {
        strings = update (view db).strings k none;
        lists = update (view db).lists k [];
        sets = update (view db).sets k (λ m. false);
        scores = update (view db).scores k (λ u. none);
      }

-- The laws again, as lemmas that a set of rules can name.
module _ (r : Redis) where
  open r use {Db, view}

  pub get_reply_lem : (k : Key) (db : Db) → r.get k db ≡ (view db).strings k
  get_reply_lem k db = r.get_reply k db

  pub llen_reply_lem : (k : Key) (db : Db) → r.llen k db ≡ length ((view db).lists k)
  llen_reply_lem k db = r.llen_reply k db

  pub lindex_reply_lem : (k : Key) (db : Db) → r.lindex_head k db ≡ head? ((view db).lists k)
  lindex_reply_lem k db = r.lindex_reply k db

  pub sismember_reply_lem :
      (k : Key) (m : String) (db : Db) → r.sismember k m db ≡ (view db).sets k m
  sismember_reply_lem k m db = r.sismember_reply k m db

  pub zscore_reply_lem : (k : Key) (u : ℕ) (db : Db) → r.zscore k u db ≡ (view db).scores k u
  zscore_reply_lem k u db = r.zscore_reply k u db

  pub set_ex_effect_lem :
      (k : Key) (n ttl : ℕ) (db : Db)
      → view (r.set_ex k n ttl db)
        ≡ record (view db) { strings = update (view db).strings k (some n) }
  set_ex_effect_lem k n ttl db = r.set_ex_effect k n ttl db

  pub set_effect_lem :
      (k : Key) (n : ℕ) (db : Db)
      → view (r.set k n db) ≡ record (view db) { strings = update (view db).strings k (some n) }
  set_effect_lem k n db = r.set_effect k n db

  pub set_nx_ex_effect_lem :
      (k : Key) (n ttl : ℕ) (db : Db)
      → r.set_nx_ex k n ttl db
        ≡ (if is_some ((view db).strings k) then (false, db) else (true, r.set_ex k n ttl db))
  set_nx_ex_effect_lem k n ttl db = r.set_nx_ex_effect k n ttl db

  pub del_effect_lem :
      (k : Key) (db : Db)
      → view (r.del k db) ≡ record (view db) { strings = update (view db).strings k none }
  del_effect_lem k db = r.del_effect k db

  pub expire_effect_lem : (k : Key) (ttl : ℕ) (db : Db) → view (r.expire k ttl db) ≡ view db
  expire_effect_lem k ttl db = r.expire_effect k ttl db

  pub incr_effect_lem :
      (k : Key) (db : Db)
      → view (r.incr k db) ≡ record (view db) {
        strings = update (view db).strings k (some (next_number ((view db).strings k)));
      }
  incr_effect_lem k db = r.incr_effect k db

  pub rpush_effect_lem :
      (k : Key) (n : BlockchainNotification) (db : Db)
      → view (r.rpush k n db)
        ≡ record (view db) { lists = update (view db).lists k ((view db).lists k ++ n ∷ []) }
  rpush_effect_lem k n db = r.rpush_effect k n db

  pub lpop_effect_lem :
      (k : Key) (db : Db)
      → view (r.lpop k db)
        ≡ record (view db) { lists = update (view db).lists k (tail ((view db).lists k)) }
  lpop_effect_lem k db = r.lpop_effect k db

  pub sadd_effect_lem :
      (k : Key) (m : String) (db : Db)
      → view (r.sadd k m db) ≡ record (view db) {
        sets = update (view db).sets k (with_member ((view db).sets k) m true);
      }
  sadd_effect_lem k m db = r.sadd_effect k m db

  pub srem_effect_lem :
      (k : Key) (m : String) (db : Db)
      → view (r.srem k m db) ≡ record (view db) {
        sets = update (view db).sets k (with_member ((view db).sets k) m false);
      }
  srem_effect_lem k m db = r.srem_effect k m db

  pub zadd_effect_lem :
      (k : Key) (score u : ℕ) (db : Db)
      → view (r.zadd k score u db) ≡ record (view db) {
        scores = update (view db).scores k (with_score ((view db).scores k) u (some score));
      }
  zadd_effect_lem k score u db = r.zadd_effect k score u db

  pub zrem_effect_lem :
      (k : Key) (u : ℕ) (db : Db)
      → view (r.zrem k u db) ≡ record (view db) {
        scores = update (view db).scores k (with_score ((view db).scores k) u none);
      }
  zrem_effect_lem k u db = r.zrem_effect k u db

  pub lapse_effect_lem :
      (k : Key) (db : Db)
      → view (r.lapse k db) ≡ record {
        strings = update (view db).strings k none;
        lists = update (view db).lists k [];
        sets = update (view db).sets k (λ m. false);
        scores = update (view db).scores k (λ u. none);
      }
  lapse_effect_lem k db = r.lapse_effect k db

pub ruleset redis_laws = (
  get_reply_lem, llen_reply_lem, lindex_reply_lem, sismember_reply_lem, zscore_reply_lem,
  set_ex_effect_lem, set_effect_lem, set_nx_ex_effect_lem, del_effect_lem, expire_effect_lem,
  incr_effect_lem, rpush_effect_lem, lpop_effect_lem, sadd_effect_lem, srem_effect_lem,
  zadd_effect_lem, zrem_effect_lem, lapse_effect_lem,
)
