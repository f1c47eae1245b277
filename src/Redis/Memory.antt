-- ===== src/Redis/Memory.antt =====
-- A store in memory: concrete functions for each operation of `LockStore`, at which the theorems
-- over any such store are instantiated.
use text.Mathlib.TextPositions.{eq_refl}
use exchange_watch.Base.{
  ℕ, ◌+◌, ◌*◌, ◌≡◌, refl, Bool, true, false, Option, none, some, String, str_eq, if◌then◌else◌,
}
use exchange_watch.Redis.{Lock, LockStore, alive}

abbrev pub Keys : Type 0
Keys = String → Option Lock

unfoldable pub put : String → Option Lock → Keys → Keys
put k o db j = if str_eq j k then o else db j

put_self : (k : String) (o : Option Lock) (db : Keys) → put k o db k ≡ o
unfolding put
put_self k o db = rw (eq_refl k)

unfoldable pub set_nx : String → String → ℕ → ℕ → Keys → Bool × Keys
set_nx k v ttl now db = elim (alive now (db k)) [
  | none ↦ (true, put k (some (record { value = v; expires = now + ttl * 1000 })) db)
  | some l ↦ (false, db)
]

unfoldable pub expire : String → ℕ → ℕ → Keys → Bool × Keys
expire k ttl now db = elim (alive now (db k)) [
  | none ↦ (false, db)
  | some l ↦ (true, put k (some (record { value = l.value; expires = now + ttl * 1000 })) db)
]

unfoldable pub get : String → ℕ → Keys → Option String
get k now db = elim (alive now (db k)) [ none ↦ none | some l ↦ some l.value ]

set_nx-free :
    (k v : String) (ttl now : ℕ) (db : Keys)
    → alive now (db k) ≡ none
    → ((set_nx k v ttl now db).0 ≡ true)
      × ((set_nx k v ttl now db).1 k ≡ some (record { value = v; expires = now + ttl * 1000 }))
unfolding set_nx
set_nx-free k v ttl now db h = rw (h, set_nx) (refl, put_self k _ db)

expire-alive :
    (k : String) (ttl now : ℕ) (db : Keys) {l : Lock}
    → alive now (db k) ≡ some l
    → ((expire k ttl now db).0 ≡ true)
      × ((expire k ttl now db).1 k ≡ some (record { value = l.value; expires = now + ttl * 1000 }))
unfolding expire
expire-alive k ttl now db h = rw (h, expire) (refl, put_self k _ db)

unfoldable pub store : LockStore
unfolding set_nx expire get put put_self set_nx-free expire-alive
store = record {
  Db = Keys;
  set_nx = set_nx;
  expire = expire;
  del = λ k. put k none;
  get = get;
  entry = λ db k. db k;
  set_nx_free = set_nx-free;
  set_nx_taken = λ k v ttl now db h. rw (h, set_nx) (refl, refl);
  expire_alive = expire-alive;
  expire_gone = λ k ttl now db h. rw (h, expire) (refl, h);
  entry-del = λ k db. put_self k none db;
  get_alive = λ k now db h. rw (h, get) refl;
  get_gone = λ k now db h. rw (h, get) refl;
}
