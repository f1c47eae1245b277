-- ===== src/Redis/Cache.antt =====
-- The hashes, the values with an expiry and the messages of Redis, as redis.service.ts passes them on to its client.
pub mod Stored
pub mod Json
mod Tests
use exchange_watch.Base.{
  ℕ, ◌+◌, ◌*◌, ◌≡◌, Bool, true, false, Option, none, some, String, str_eq, List, [], ◌∷◌, map, ltb,
  if◌then◌else◌,
}

-- A field's value after a list of fields has been written over an old value.
abbrev pub written : List (String × String) → String → Option String → Option String
written [] f old = old
written ((g, v) ∷ rest) f old = written rest f (if str_eq g f then some v else old)

pub record Client : Type 1 where
  pub Db : Type 0
  -- `HMGET`, `HSET`, `SET key value EX ttl` and `GET`
  pub hmget : String → List String → Db → List (Option String)
  pub hset : String → List (String × String) → Db → Db
  pub set : String → String → ℕ → ℕ → Db → Db
  pub get : String → ℕ → Db → Option String
  -- `SET key value` and `DEL`
  pub set_forever : String → String → Db → Db
  pub del : String → Db → Db
  -- what a field of a hash holds
  pub field : Db → String → String → Option String
  pub hmget_fields : (k : String) (fs : List String) (db : Db) → hmget k fs db ≡ map (field db k) fs
  pub hset_field :
      (k : String) (kvs : List (String × String)) (db : Db) (k' f : String)
      → field (hset k kvs db) k' f
        ≡ (if str_eq k k' then written kvs f (field db k' f) else field db k' f)
  pub set_field :
      (k v : String) (ttl now : ℕ) (db : Db) (k' f : String)
      → str_eq k k' ≡ false
      → field (set k v ttl now db) k' f ≡ field db k' f
  pub set_get :
      (k v : String) (ttl now later : ℕ) (db : Db)
      → get k later (set k v ttl now db) ≡ (if ltb later (now + ttl * 1000) then some v else none)
  pub set_other :
      (k v : String) (ttl now later : ℕ) (db : Db) (k' : String)
      → str_eq k k' ≡ false
      → get k' later (set k v ttl now db) ≡ get k' later db
  pub set_forever_get :
      (k v : String) (later : ℕ) (db : Db) → get k later (set_forever k v db) ≡ some v
  pub set_forever_other :
      (k v : String) (later : ℕ) (db : Db) (k' : String)
      → str_eq k k' ≡ false
      → get k' later (set_forever k v db) ≡ get k' later db
  pub del_get : (k : String) (later : ℕ) (db : Db) → get k later (del k db) ≡ none

module _ (C : Client) where
  open C use {Db}

  -- `hset`, `hmget`, and `set` with a time to live; `set` is given the JSON text of its value.
  unfoldable pub hset : String → List (String × String) → Db → Db
  hset key value db = C.hset key value db

  unfoldable pub hmget : String → List String → Db → List (Option String)
  hmget key fields db = C.hmget key fields db

  unfoldable pub set : String → String → ℕ → ℕ → Db → Db
  set key text ttl now db = C.set key text ttl now db
