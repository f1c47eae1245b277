-- ===== src/Redis/LockManager.antt =====
-- lock-manager.service.ts: a task under a short-term lock.
use exchange_watch.Base.{
  ℕ, ◌+◌, ◌*◌, ◌≡◌, Option, none, some, String, arith, Result, ok, err, if◌then◌else◌,
}
use exchange_watch.Redis.{Lock, LockStore, alive, set_lock, release_lock}

pub data LockNames : Type 0 where
  ai_report daily_aggregation : LockNames

abbrev pub lock_name : LockNames → String
lock_name LockNames.ai_report = "AIreport"
lock_name LockNames.daily_aggregation = "daily-aggregation"

-- What `run_with_lock` returns: the task's result, or null, also where the task throws.
abbrev pub or_null : {E A : Type 0} → Result E A → Option A
or_null (ok a) = some a
or_null (err e) = none

module _ (R : LockStore) {E A : Type 0} where
  -- The task runs over the store, since other clients use it while the task is awaited.
  unfoldable pub run_with_lock :
      String → LockNames → (R.Db → Result E A × R.Db) → ℕ → ℕ → R.Db → Option A × R.Db
  unfolding set_lock release_lock
  run_with_lock lock_id name task ttl now db =
      let (acquired, db1) = set_lock R (lock_name name) lock_id ttl now db in
      if acquired
      then (let (result, db2) = task db1 in (or_null result, release_lock R (lock_name name) db2))
      else (none, db1)

  -- Where the lock is free the task runs while it is held, by this service and for `ttl` seconds, and the lock is
  -- released whether the task returns or throws; what it throws becomes null.
  pub run_with_lock_free :
      (lock_id : String) (name : LockNames) (task : R.Db → Result E A × R.Db) (ttl now : ℕ)
      (db : R.Db)
      → alive now (R.entry db (lock_name name)) ≡ none
      → (held : R.Db) × (R.entry held (lock_name name)
          ≡ some (record { value = lock_id; expires = now + ttl * 1000 }))
        × ((run_with_lock lock_id name task ttl now db).0 ≡ or_null (task held).0)
        × (R.entry (run_with_lock lock_id name task ttl now db).1 (lock_name name) ≡ none)
  unfolding run_with_lock
  run_with_lock_free lock_id name task ttl now db h =
      let held = (R.set_nx (lock_name name) lock_id ttl now db).1 in
      let (got, e) = R.set_nx_free (lock_name name) lock_id ttl now db h in
      (
        held,
        e,
        ground (arith, got),
        ground (arith, got, R.entry-del (lock_name name) (task held).1),
      )

  -- Where another holds the lock the task does not run: the result is null and the store stays as it was.
  pub run_with_lock_taken :
      (lock_id : String) (name : LockNames) (task : R.Db → Result E A × R.Db) (ttl now : ℕ)
      (db : R.Db) (l : Lock)
      → alive now (R.entry db (lock_name name)) ≡ some l
      → run_with_lock lock_id name task ttl now db ≡ (none, db)
  unfolding run_with_lock
  run_with_lock_taken lock_id name task ttl now db l h =
      let (got, e) = R.set_nx_taken (lock_name name) lock_id ttl now db h in ground (arith, got, e)
