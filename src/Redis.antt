-- ===== src/Redis.antt =====
-- infrastructure/redis: the locks. The Redis server and its client are no part of the repository,
-- so they are the operations and laws of `LockStore`.
pub mod LockManager
pub mod Memory
pub mod Cache
use exchange_watch.Base.{
  ℕ, ◌+◌, ◌*◌, ◌≡◌, ◌≢◌, Bool, true, false, Option, none, some, String, ltb, if◌then◌else◌,
}

-- What a key holds: the value, and the time in milliseconds at which it expires.
pub record Lock : Type 0 where
  pub value : String
  pub expires : ℕ

-- The entry that is visible at a time.
abbrev pub alive : ℕ → Option Lock → Option Lock
alive now none = none
alive now (some l) = if ltb now l.expires then some l else none

pub record LockStore : Type 1 where
  pub Db : Type 0
  -- `SET key value EX ttl NX`, whether it replied OK; `EXPIRE key ttl`, whether it replied 1; `DEL`; `GET`
  pub set_nx : String → String → ℕ → ℕ → Db → Bool × Db
  pub expire : String → ℕ → ℕ → Db → Bool × Db
  pub del : String → Db → Db
  pub get : String → ℕ → Db → Option String
  -- what a key holds, also after it has expired
  pub entry : Db → String → Option Lock
  pub set_nx_free :
      (k v : String) (ttl now : ℕ) (db : Db)
      → alive now (entry db k) ≡ none
      → ((set_nx k v ttl now db).0 ≡ true)
        × (entry (set_nx k v ttl now db).1 k
            ≡ some (record { value = v; expires = now + ttl * 1000 }))
  pub set_nx_taken :
      (k v : String) (ttl now : ℕ) (db : Db) {l : Lock}
      → alive now (entry db k) ≡ some l
      → ((set_nx k v ttl now db).0 ≡ false) × ((set_nx k v ttl now db).1 ≡ db)
  pub expire_alive :
      (k : String) (ttl now : ℕ) (db : Db) {l : Lock}
      → alive now (entry db k) ≡ some l
      → ((expire k ttl now db).0 ≡ true)
        × (entry (expire k ttl now db).1 k
            ≡ some (record { value = l.value; expires = now + ttl * 1000 }))
  pub expire_gone :
      (k : String) (ttl now : ℕ) (db : Db)
      → alive now (entry db k) ≡ none
      → ((expire k ttl now db).0 ≡ false) × (alive now (entry (expire k ttl now db).1 k) ≡ none)
  pub entry-del : (k : String) (db : Db) → entry (del k db) k ≡ none
  pub get_alive :
      (k : String) (now : ℕ) (db : Db) {l : Lock}
      → alive now (entry db k) ≡ some l
      → get k now db ≡ some l.value
  pub get_gone :
      (k : String) (now : ℕ) (db : Db) → alive now (entry db k) ≡ none → get k now db ≡ none

module _ (R : LockStore) where
  open R use {Db, set_nx, expire, del, get}

  -- redis.service.ts: `setLock`, `releaseLock`, `renewLock`, `getRaw`.
  unfoldable pub set_lock : String → String → ℕ → ℕ → Db → Bool × Db
  set_lock key value ttl now db = set_nx key value ttl now db

  unfoldable pub release_lock : String → Db → Db
  release_lock key db = del key db

  unfoldable pub renew_lock : String → ℕ → ℕ → Db → Bool × Db
  renew_lock key ttl now db = expire key ttl now db

  unfoldable pub get_raw : String → ℕ → Db → Option String
  get_raw key now db = get key now db
