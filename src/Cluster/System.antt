-- ===== src/Cluster/System.antt =====
-- The instances that share one Redis, as a step relation: each step is one call in one instance.
use exchange_watch.Base.{ℕ, ◌+◌, ◌<◌, ◌≡◌, Bool, true, Option, none, some, ◌==◌, if◌then◌else◌}
use exchange_watch.Redis.{Lock, LockStore}
use exchange_watch.Cluster.{lock_key, Instance, elect, heartbeat, watch, shutdown}

module _ (R : LockStore) where
  -- The running instances of the program, the store and the time.
  pub record System : Type 0 where
    pub now : ℕ
    pub instances : ℕ → Option Instance
    pub db : R.Db

  abbrev pub update : (ℕ → Option Instance) → ℕ → Option Instance → ℕ → Option Instance
  update f i o j = if i == j then o else f j

  abbrev pub after : System → ℕ → Instance × R.Db → System
  after s i r = record s { instances = update s.instances i (some r.0); db = r.1 }

  -- An instance calls `elect`, or an interval that runs in it fires, or it is shut down; or time passes, and
  -- then, if an instance leads, not beyond the time at which the lock expires.
  pub data Step (s : System) : System → Type 0 where
    elects :
        (i : ℕ) (inst : Instance) (market_open : Bool)
        → s.instances i ≡ some inst
        → Step s (after s i (elect R market_open s.now inst s.db))
    beats :
        (i : ℕ) (inst : Instance) (market_open : Bool)
        → s.instances i ≡ some inst
        → 0 < inst.heartbeats
        → Step s (after s i (heartbeat R market_open s.now inst s.db))
    watches :
        (i : ℕ) (inst : Instance) (market_open : Bool)
        → s.instances i ≡ some inst
        → 0 < inst.watchers
        → Step s (after s i (watch R market_open s.now inst s.db))
    stops :
        (i : ℕ) (inst : Instance)
        → s.instances i ≡ some inst
        → Step s (record s { instances = update s.instances i none; db = (shutdown R inst s.db).1 })
    waits :
        (n : ℕ)
        → ((i : ℕ) (inst : Instance) (l : Lock)
            → s.instances i ≡ some inst
            → inst.is_leader ≡ true
            → R.entry s.db lock_key ≡ some l
            → s.now + n < l.expires)
        → Step s (record s { now = s.now + n })

  pub data Reach (s : System) : System → Type 0 where
    here : Reach s s
    next : {t u : System} → Reach s t → Step t u → Reach s u
