-- ===== src/Cluster/Recovery.antt =====
-- What happens when a leader is gone without having released its lock.
use exchange_watch.Base.{ℕ, ◌+◌, ◌*◌, ◌-◌, ◌<◌, ◌≡◌, refl, true, false, Option, none, some, arith}
use exchange_watch.Redis.{Lock, LockStore, alive}
use exchange_watch.Cluster.System.{System, Step, Reach, after, watches, waits, here, next}
use exchange_watch.Cluster.SplitBrain.{watch_wins}
use exchange_watch.Cluster.{lock_key, lock_ttl, Instance, watch}

-- How long an entry still keeps others out.
abbrev pub remaining : ℕ → Option Lock → ℕ
remaining now none = 0
remaining now (some l) = l.expires - now

alive_no_more : (now : ℕ) (o : Option Lock) → alive (now + remaining now o) o ≡ none
alive_no_more now none = refl
alive_no_more now (some l) = ground arith

module _ (R : LockStore) where
  -- The state once the time that the lock has left has passed.
  abbrev pub waited : System R → System R
  waited s = record s { now = s.now + remaining s.now (R.entry s.db lock_key) }

  -- The state after the watcher of an instance has fired, with the market open.
  abbrev pub fired : System R → ℕ → Instance → System R
  fired s j b = after R s j (watch R true s.now b s.db)

  -- Where no instance leads, whatever lock is left in Redis, and one instance watches: once the time that the lock has left has
  -- passed, the firing of its watcher, with the market open, makes this instance the leader, and the lock its own.
  pub leader_returns :
      (s : System R) (j : ℕ) (b : Instance)
      → ((i : ℕ) (inst : Instance) → s.instances i ≡ some inst → inst.is_leader ≡ false)
      → s.instances j ≡ some b
      → 0 < b.watchers
      → Reach R s (waited s)
        × Step R (waited s) (fired (waited s) j b)
        × ((c : Instance) × ((fired (waited s) j b).instances j ≡ some c) × (c.is_leader ≡ true))
        × (R.entry (fired (waited s) j b).db lock_key
            ≡ some (record {
              value = b.instance_id;
              expires = s.now + remaining s.now (R.entry s.db lock_key) + lock_ttl * 1000;
            }))
  leader_returns s j b nobody e w =
      let n = remaining s.now (R.entry s.db lock_key) in
      let (held, leads) =
        watch_wins R (s.now + n) b s.db (alive_no_more s.now (R.entry s.db lock_key)) in
      (
        next here (waits n (λ i inst l f leading g. cc (nobody i inst f, leading))),
        watches j b true e w,
        ((watch R true (s.now + n) b s.db).0, ground arith, leads),
        held,
      )
