-- ===== src/Cluster/SplitBrain.antt =====
-- What happens when a leader is late: the lock is not fenced, and intervals pile up.
use exchange_watch.Base.{ℕ, ◌+◌, ◌*◌, ◌<◌, ◌≡◌, ◌≢◌, Bool, true, none, some, arith}
use exchange_watch.Redis.{Lock, LockStore, alive}
use exchange_watch.Cluster.System.{System, Step, after, watches}
use exchange_watch.Cluster.{lock_key, lock_ttl, Instance, win, elect, heartbeat, watch}

module _ (R : LockStore) where
  -- An instance whose watcher fires once the lock has expired becomes leader while the market is open.
  pub watch_wins :
      (now : ℕ) (b : Instance) (db : R.Db)
      → alive now (R.entry db lock_key) ≡ none
      → (R.entry (watch R true now b db).1 lock_key
          ≡ some (record { value = b.instance_id; expires = now + lock_ttl * 1000 }))
        × ((watch R true now b db).0.is_leader ≡ true)
  unfolding watch elect win
  watch_wins now b db free =
      let (got, e) = R.set_nx_free lock_key b.instance_id lock_ttl now db free in
      let gone = R.get_gone lock_key now db free in
      (ground (arith, got, e, gone), ground (arith, got, gone))

  -- `renewLock` succeeds whoever holds the lock.
  heartbeat_renews :
      (market_open : Bool) (now : ℕ) (a : Instance) (db : R.Db) (l : Lock)
      → alive now (R.entry db lock_key) ≡ some l
      → ((heartbeat R market_open now a db).0 ≡ a)
        × (R.entry (heartbeat R market_open now a db).1 lock_key
            ≡ some (record { value = l.value; expires = now + lock_ttl * 1000 }))
  unfolding heartbeat
  heartbeat_renews m now a db l h =
      let (got, e) = R.expire_alive lock_key lock_ttl now db h in
      (ground (arith, got), ground (arith, got, e))

  -- A bug: when the lock has expired under a leader, the firing of the watcher of another instance, with the market open, makes
  -- this one a second leader, and the first one's next heartbeat finds the other's lock, renews it for the other, and stays
  -- leader.
  pub split_brain :
      (s : System R) (i j : ℕ) (a b : Instance) (market_open : Bool)
      → i ≢ j
      → s.instances i ≡ some a
      → s.instances j ≡ some b
      → a.is_leader ≡ true
      → 0 < b.watchers
      → alive s.now (R.entry s.db lock_key) ≡ none
      → Step R s (after R s j (watch R true s.now b s.db))
        × ((after R s j (watch R true s.now b s.db)).instances i ≡ some a)
        × ((watch R true s.now b s.db).0.is_leader ≡ true)
        × ((heartbeat R market_open s.now a (watch R true s.now b s.db).1).0 ≡ a)
        × (R.entry (heartbeat R market_open s.now a (watch R true s.now b s.db).1).1 lock_key
            ≡ some (record { value = b.instance_id; expires = s.now + lock_ttl * 1000 }))
  split_brain s i j a b m ne ea eb la w free =
      let (held, leads) = watch_wins s.now b s.db free in
      let r = watch R true s.now b s.db in
      let l : Lock = record { value = b.instance_id; expires = s.now + lock_ttl * 1000 } in
      let alive_now : alive s.now (R.entry r.1 lock_key) ≡ some l = rw held (ground arith) in
      let (same, renewed) = heartbeat_renews m s.now a r.1 l alive_now in
      (watches j b true eb w, ground arith, leads, same, renewed)

  -- The bug: a leader whose lock has expired and who wins it again starts a second heartbeat and keeps the first, which no
  -- field names any more.
  pub heartbeat_leaks :
      (now : ℕ) (a : Instance) (db : R.Db)
      → alive now (R.entry db lock_key) ≡ none
      → ((heartbeat R true now a db).0.heartbeats ≡ a.heartbeats + 1)
        × ((heartbeat R true now a db).0.is_leader ≡ true)
  unfolding heartbeat elect win
  heartbeat_leaks now a db free =
      let (gone, still) = R.expire_gone lock_key lock_ttl now db free in
      let later = (R.expire lock_key lock_ttl now db).1 in
      let (got, _) = R.set_nx_free lock_key a.instance_id lock_ttl now later still in
      (ground (arith, gone, got), ground (arith, gone, got))
