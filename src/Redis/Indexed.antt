-- ===== src/Redis/Indexed.antt =====
-- A server in memory that also lists the users who were ever scheduled, so that a range of the
-- schedule can be read off.
use my_mtlwallet_bot.Prelude.{
  ℕ, ◌≡◌, refl, Bool, true, false, ◌||◌, List, [], ◌∷◌, is_some, if◌then◌else◌, ◌==◌, arith,
}
use my_mtlwallet_bot.Redis.{Redis, Keyspace, Key, due}
use my_mtlwallet_bot.Redis.Memory.{memory, empty}

abbrev pub listed : ℕ → List ℕ → Bool
listed u [] = false
listed u (v ∷ vs) = v == u || listed u vs

pub record Index : Type 0 where
  pub keyspace : Keyspace
  pub members : List ℕ
  pub complete : (u : ℕ) → is_some (keyspace.scores due u) ≡ true → listed u members ≡ true

pub empty_complete : (u : ℕ) → is_some (empty.scores due u) ≡ true → listed u [] ≡ true
empty_complete u h = cc

abbrev pub empty_index : Index
empty_index = record { keyspace = empty; members = []; complete = empty_complete }

-- A command that leaves the scores alone.
abbrev aside : (ks : Keyspace) (db : Index) → ks.scores ≡ db.keyspace.scores → Index
aside ks db e = record {
  keyspace = ks;
  members = db.members;
  complete = λ u h. db.complete u (rw e at h);
}

pub zadd_complete :
    (k : Key) (score u : ℕ) (db : Index) (v : ℕ)
    → is_some ((memory.zadd k score u db.keyspace).scores due v) ≡ true
    → listed v (u ∷ db.members) ≡ true
zadd_complete k score u db v h = ground (arith, db.complete v)

pub zrem_complete :
    (k : Key) (u : ℕ) (db : Index) (v : ℕ)
    → is_some ((memory.zrem k u db.keyspace).scores due v) ≡ true
    → listed v db.members ≡ true
zrem_complete k u db v h = ground (arith, db.complete v)

pub lapse_complete :
    (k : Key) (db : Index) (v : ℕ)
    → is_some ((memory.lapse k db.keyspace).scores due v) ≡ true
    → listed v db.members ≡ true
lapse_complete k db v h = ground (arith, db.complete v)

abbrev set_ex : Key → ℕ → ℕ → Index → Index
set_ex k n ttl db = aside (memory.set_ex k n ttl db.keyspace) db refl

abbrev pub indexed : Redis
indexed = record {
  Db = Index;
  view = λ db. db.keyspace;
  get = λ k db. memory.get k db.keyspace;
  llen = λ k db. memory.llen k db.keyspace;
  lindex_head = λ k db. memory.lindex_head k db.keyspace;
  sismember = λ k m db. memory.sismember k m db.keyspace;
  zscore = λ k u db. memory.zscore k u db.keyspace;
  set_ex = set_ex;
  set = λ k n db. aside (memory.set k n db.keyspace) db refl;
  set_nx_ex = λ k n ttl db.
      if is_some (db.keyspace.strings k) then (false, db) else (true, set_ex k n ttl db);
  del = λ k db. aside (memory.del k db.keyspace) db refl;
  expire = λ k ttl db. db;
  incr = λ k db. aside (memory.incr k db.keyspace) db refl;
  rpush = λ k n db. aside (memory.rpush k n db.keyspace) db refl;
  lpop = λ k db. aside (memory.lpop k db.keyspace) db refl;
  sadd = λ k m db. aside (memory.sadd k m db.keyspace) db refl;
  srem = λ k m db. aside (memory.srem k m db.keyspace) db refl;
  zadd = λ k score u db. record {
    keyspace = memory.zadd k score u db.keyspace;
    members = u ∷ db.members;
    complete = zadd_complete k score u db;
  };
  zrem = λ k u db. record {
    keyspace = memory.zrem k u db.keyspace;
    members = db.members;
    complete = zrem_complete k u db;
  };
  lapse = λ k db. record {
    keyspace = memory.lapse k db.keyspace;
    members = db.members;
    complete = lapse_complete k db;
  };
  get_reply = λ k db. refl;
  llen_reply = λ k db. refl;
  lindex_reply = λ k db. refl;
  sismember_reply = λ k m db. refl;
  zscore_reply = λ k u db. refl;
  set_ex_effect = λ k n ttl db. refl;
  set_effect = λ k n db. refl;
  set_nx_ex_effect = λ k n ttl db. refl;
  del_effect = λ k db. refl;
  expire_effect = λ k ttl db. refl;
  incr_effect = λ k db. refl;
  rpush_effect = λ k n db. refl;
  lpop_effect = λ k db. refl;
  sadd_effect = λ k m db. refl;
  srem_effect = λ k m db. refl;
  zadd_effect = λ k score u db. refl;
  zrem_effect = λ k u db. refl;
  lapse_effect = λ k db. refl;
}
