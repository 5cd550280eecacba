-- ===== src/Redis/Memory.antt =====
-- A server that keeps its keyspace in memory: the laws of `Redis` can be met, and tests run on it.
use my_mtlwallet_bot.Prelude.{
  refl, true, false, none, some, [], ◌∷◌, ◌++◌, is_some, length, head?, tail, if◌then◌else◌,
}
use my_mtlwallet_bot.Redis.{Redis, Keyspace, update, with_member, with_score, next_number}

abbrev pub empty : Keyspace
empty = record { strings = λ k. none; lists = λ k. []; sets = λ k m. false; scores = λ k u. none }

abbrev pub memory : Redis
memory = record {
  Db = Keyspace;
  view = λ ks. ks;
  get = λ k ks. ks.strings k;
  llen = λ k ks. length (ks.lists k);
  lindex_head = λ k ks. head? (ks.lists k);
  sismember = λ k m ks. ks.sets k m;
  zscore = λ k u ks. ks.scores k u;
  set_ex = λ k n ttl ks. record ks { strings = update ks.strings k (some n) };
  set = λ k n ks. record ks { strings = update ks.strings k (some n) };
  set_nx_ex = λ k n ttl ks.
      if is_some (ks.strings k)
      then (false, ks)
      else (true, record ks { strings = update ks.strings k (some n) });
  del = λ k ks. record ks { strings = update ks.strings k none };
  expire = λ k ttl ks. ks;
  incr = λ k ks. record ks { strings = update ks.strings k (some (next_number (ks.strings k))) };
  rpush = λ k n ks. record ks { lists = update ks.lists k (ks.lists k ++ n ∷ []) };
  lpop = λ k ks. record ks { lists = update ks.lists k (tail (ks.lists k)) };
  sadd = λ k m ks. record ks { sets = update ks.sets k (with_member (ks.sets k) m true) };
  srem = λ k m ks. record ks { sets = update ks.sets k (with_member (ks.sets k) m false) };
  zadd = λ k score u ks. record ks {
    scores = update ks.scores k (with_score (ks.scores k) u (some score));
  };
  zrem = λ k u ks. record ks { scores = update ks.scores k (with_score (ks.scores k) u none) };
  lapse = λ k ks. record {
    strings = update ks.strings k none;
    lists = update ks.lists k [];
    sets = update ks.sets k (λ m. false);
    scores = update ks.scores k (λ u. none);
  };
  get_reply = λ k ks. refl;
  llen_reply = λ k ks. refl;
  lindex_reply = λ k ks. refl;
  sismember_reply = λ k m ks. refl;
  zscore_reply = λ k u ks. refl;
  set_ex_effect = λ k n ttl ks. refl;
  set_effect = λ k n ks. refl;
  set_nx_ex_effect = λ k n ttl ks. refl;
  del_effect = λ k ks. refl;
  expire_effect = λ k ttl ks. refl;
  incr_effect = λ k ks. refl;
  rpush_effect = λ k n ks. refl;
  lpop_effect = λ k ks. refl;
  sadd_effect = λ k m ks. refl;
  srem_effect = λ k m ks. refl;
  zadd_effect = λ k score u ks. refl;
  zrem_effect = λ k u ks. refl;
  lapse_effect = λ k ks. refl;
}
