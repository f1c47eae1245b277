-- ===== src/Cluster.antt =====
-- infrastructure/cluster: each instance of the program elects itself leader by a lock in Redis.
pub mod System
pub mod Safety
pub mod SplitBrain
pub mod Recovery
mod Tests
use exchange_watch.Base.{
  ℕ, suc, ◌+◌, ◌-◌, ◌*◌, ◌≤◌, ◌<◌, ◌≡◌, Bool, true, false, Option, none, some, String,
  if◌then◌else◌, ◌==◌,
}
use exchange_watch.Redis.{LockStore, set_lock, release_lock, renew_lock, get_raw}

abbrev pub lock_key : String
lock_key = "leader-lock:collector"

-- in seconds
abbrev pub lock_ttl : ℕ
lock_ttl = 60

-- The fields of LeaderElectionService and RoleService that change. `heartbeats` and `watchers` count the
-- intervals that run; the flags say whether `heartbeatInterval` and `watcherInterval` name a running one.
pub record Instance : Type 0 where
  pub instance_id : String
  pub is_leader : Bool
  pub heartbeats : ℕ
  pub heartbeat_interval : Bool
  pub watchers : ℕ
  pub watcher_interval : Bool
  -- how often `startConnection` was called
  pub connections : ℕ

abbrev pub new_instance : String → Instance
new_instance id = record {
  instance_id = id;
  is_leader = false;
  heartbeats = 0;
  heartbeat_interval = false;
  watchers = 0;
  watcher_interval = false;
  connections = 0;
}

clear_heartbeat : Instance → Instance
clear_heartbeat i =
    if i.heartbeat_interval
    then record i { heartbeats = i.heartbeats - 1; heartbeat_interval = false }
    else i

clear_watcher : Instance → Instance
clear_watcher i =
    if i.watcher_interval
    then record i { watchers = i.watchers - 1; watcher_interval = false }
    else i

-- `setInterval` starts one more, and the field forgets the one before.
start_heartbeat : Instance → Instance
start_heartbeat i = record i { heartbeats = i.heartbeats + 1; heartbeat_interval = true }

start_watching : Instance → Instance
start_watching i = record i { watchers = i.watchers + 1; watcher_interval = true }

set_as_leader : Instance → Instance
set_as_leader i = record i { is_leader = true }

set_as_worker : Instance → Instance
set_as_worker i = record i { is_leader = false }

-- `startConnection` tests the market again, at the same time here.
start_connection : Instance → Instance
start_connection i = record i { connections = i.connections + 1 }

pub win : Instance → Instance
unfolding start_connection start_heartbeat clear_watcher set_as_leader
win i = start_connection (start_heartbeat (clear_watcher (set_as_leader i)))

pub lose : Instance → Instance
unfolding start_watching clear_heartbeat set_as_worker
lose i = start_watching (clear_heartbeat (set_as_worker i))

module _ (R : LockStore) where
  -- `elect`, at a time, with whether the market is open then.
  pub elect : Bool → ℕ → Instance → R.Db → Instance × R.Db
  unfolding set_lock win lose
  elect market_open now i db =
      if market_open
      then (let (acquired, db') = set_lock R lock_key i.instance_id lock_ttl now db in
          (if acquired then win i else lose i, db'))
      else (i, db)

  -- One firing of the interval of `startHeartbeat`.
  pub heartbeat : Bool → ℕ → Instance → R.Db → Instance × R.Db
  unfolding renew_lock elect
  heartbeat market_open now i db =
      let (renewed, db') = renew_lock R lock_key lock_ttl now db in
      if renewed then (i, db') else elect market_open now i db'

  -- One firing of the interval of `startWatching`.
  pub watch : Bool → ℕ → Instance → R.Db → Instance × R.Db
  unfolding get_raw elect
  watch market_open now i db = elim (get_raw R lock_key now db) [
    | none ↦ elect market_open now i db
    | some leader_id ↦ (i, db)
  ]

  -- `onApplicationShutdown`
  pub shutdown : Instance → R.Db → Instance × R.Db
  unfolding clear_heartbeat clear_watcher release_lock
  shutdown i db =
      let i' = clear_watcher (clear_heartbeat i) in
      (i', if i.is_leader then release_lock R lock_key db else db)
