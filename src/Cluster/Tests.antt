-- ===== src/Cluster/Tests.antt =====
-- Instances of the cluster's theorems, over the store in memory.
use exchange_watch.Base.{
  ℕ, zero, suc, ◌+◌, ◌*◌, ◌≡◌, refl, ap, true, none, some, String, arith, ◌==◌, if◌then◌else◌,
}
use exchange_watch.Redis.Memory.{store, Keys}
use exchange_watch.Cluster.Recovery.{remaining, waited, fired, leader_returns}
use exchange_watch.Cluster.System.{System, Step, Reach, elects, here, next, after}
use exchange_watch.Cluster.Safety.{one_leader}
use exchange_watch.Cluster.SplitBrain.{split_brain}
use exchange_watch.Cluster.{lock_key, lock_ttl, Instance, new_instance, elect, heartbeat, watch}

-- Distinct ids.
ids : ℕ → String
ids zero = String.[]
ids (suc n) = String.◌∷◌ "x" (ids n)

size : String → ℕ
size String.[] = 0
size (String.◌∷◌ c s) = suc (size s)

size-ids : (n : ℕ) → size (ids n) ≡ n
unfolding size ids
size-ids zero = refl
size-ids (suc n) = ap suc (size-ids n)

ids-injective : (i j : ℕ) → ids i ≡ ids j → i ≡ j
ids-injective i j e = rw (← size-ids i, e) (size-ids j)

abbrev empty : Keys
empty = λ _. none

abbrev start : System store
unfolding store
start = record { now = 1000; instances = λ n. some (new_instance (ids n)); db = empty }

abbrev first : Instance × Keys
unfolding store
first = elect store true 1000 (new_instance (ids 0)) empty

abbrev elected : System store
unfolding store
elected = after store start 0 first

one_leader_example : ◌≡◌ {A = ℕ} 0 0
unfolding store elect
one_leader_example =
    one_leader store ids {s = start} {t = elected} ids-injective (λ i inst e. cc)
      (next here (elects 0 (new_instance (ids 0)) true refl)) 0 0 first.0 first.0 refl refl refl
      refl

abbrev late : Instance
late = record (new_instance "late") { is_leader = true; heartbeats = 1; heartbeat_interval = true }

abbrev watching : Instance
watching = record (new_instance "next") { watchers = 1; watcher_interval = true }

abbrev two : System store
unfolding store
two = record {
  now = 1000;
  instances = λ n. if n == 0 then some late else some watching;
  db = empty;
}

abbrev empty_db : store.Db
unfolding store
empty_db = empty

split_brain_example :
    Step store two (after store two 1 (watch store true 1000 watching empty_db))
    × ((after store two 1 (watch store true 1000 watching empty_db)).instances 0 ≡ some late)
    × ((watch store true 1000 watching empty_db).0.is_leader ≡ true)
    × ((heartbeat store true 1000 late (watch store true 1000 watching empty_db).1).0 ≡ late)
    × (store.entry
          (heartbeat store true 1000 late (watch store true 1000 watching empty_db).1).1
          lock_key
        ≡ some (record { value = "next"; expires = 1000 + lock_ttl * 1000 }))
unfolding store
split_brain_example =
    split_brain store two 0 1 late watching true (omega arith) refl refl refl (omega arith) refl

-- Nobody leads, and a lock is left that expires at 61000.
abbrev left : System store
unfolding store
left = record {
  now = 1000;
  instances = λ n. some watching;
  db = λ k. some (record { value = "gone"; expires = 61000 });
}

leader_returns_example :
    Reach store left (waited store left)
    × Step store (waited store left) (fired store (waited store left) 3 watching)
    × ((c : Instance) × ((fired store (waited store left) 3 watching).instances 3 ≡ some c)
        × (c.is_leader ≡ true))
    × (store.entry (fired store (waited store left) 3 watching).db lock_key
        ≡ some (record {
          value = "next";
          expires = 1000 + remaining 1000 (store.entry left.db lock_key) + lock_ttl * 1000;
        }))
unfolding store
leader_returns_example = leader_returns store left 3 watching (λ i inst e. cc) refl (omega arith)
