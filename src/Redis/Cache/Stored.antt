-- ===== src/Redis/Cache/Stored.antt =====
-- A client in memory: concrete functions for the operations of `Client`.
use exchange_watch.Base.{
  ℕ, ◌+◌, ◌*◌, refl, Option, none, some, String, str_eq, eq_iff, map, ltb, if◌then◌else◌,
}
use exchange_watch.Redis.Cache.{written, Client}

pub record Stored : Type 0 where
  pub hashes : String → String → Option String
  -- the text and, unless it stays for ever, the time at which it expires
  pub values : String → Option (String × Option ℕ)

abbrev pub empty : Stored
empty = record { hashes = λ k f. none; values = λ k. none }

abbrev alive : ℕ → Option (String × Option ℕ) → Option String
alive now none = none
alive now (some (v, none)) = some v
alive now (some (v, some expires)) = if ltb now expires then some v else none

abbrev pub client : Client
client = record {
  Db = Stored;
  hmget = λ k fs db. map (db.hashes k) fs;
  hset = λ k kvs db. record db {
    hashes = λ k' f. if str_eq k k' then written kvs f (db.hashes k' f) else db.hashes k' f;
  };
  set = λ k v ttl now db. record db {
    values = λ k'. if str_eq k k' then some (v, some (now + ttl * 1000)) else db.values k';
  };
  set_forever =
      λ k v db. record db { values = λ k'. if str_eq k k' then some (v, none) else db.values k' };
  del = λ k db. record db { values = λ k'. if str_eq k k' then none else db.values k' };
  get = λ k now db. alive now (db.values k);
  field = λ db k f. db.hashes k f;
  hmget_fields = λ k fs db. refl;
  hset_field = λ k kvs db k' f. refl;
  set_field = λ k v ttl now db k' f h. refl;
  set_get = λ k v ttl now later db. rw ((eq_iff k k).1 refl) refl;
  set_other = λ k v ttl now later db k' h. rw h refl;
  set_forever_get = λ k v later db. rw ((eq_iff k k).1 refl) refl;
  set_forever_other = λ k v later db k' h. rw h refl;
  del_get = λ k later db. rw ((eq_iff k k).1 refl) refl;
}
