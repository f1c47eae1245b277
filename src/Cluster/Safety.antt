-- ===== src/Cluster/Safety.antt =====
-- At most one leader, as long as the lock is renewed in time.
use exchange_watch.Base.{
  ℕ, ◌+◌, ◌*◌, ◌<◌, ◌≡◌, refl, ◌∙◌, ap, subst, Bool, true, false, Option, none, some, String, arith,
  ◌==◌, if◌then◌else◌, inl, inr, Option-cases, Bool-cases, if_of_false, ltb,
}
use exchange_watch.Redis.{Lock, LockStore, alive}
use exchange_watch.Cluster.System.{
  System, Step, Reach, update, after, elects, beats, watches, stops, waits, here, next,
}
use exchange_watch.Cluster.{
  lock_key, lock_ttl, Instance, new_instance, win, lose, elect, heartbeat, watch, shutdown,
}

-- What is alive after a time was alive before it, and stays so until it expires.
alive_later :
    (now n : ℕ) (o : Option Lock) (l : Lock)
    → alive now o ≡ some l
    → (o ≡ some l → now + n < l.expires)
    → (o ≡ some l) × (alive (now + n) o ≡ some l)
alive_later now n none l a t = cc
alive_later now n (some x) l a t = elim (Bool-cases (ltb now x.expires)) [
  | inl h ↦ let e : x ≡ l = ground arith in (ap some e, ground (arith, t (ap some e)))
  | inr h ↦ ground arith
]

module _ (R : LockStore) where
  -- The lock is alive and names the instance.
  abbrev pub Holds : ℕ → String → R.Db → Type 0
  Holds now id db = (l : Lock) × (alive now (R.entry db lock_key) ≡ some l) × (l.value ≡ id)

  -- What a call of an instance leaves: if it leads, it holds the lock; and whoever held the lock still does.
  abbrev Keeps : ℕ → R.Db → Instance × R.Db → Type 0
  Keeps now db (i, db') =
      (i.is_leader ≡ true → Holds now i.instance_id db')
      × ((id : String) → Holds now id db → Holds now id db')

  renewed_alive :
      (now : ℕ) (v : String) (db : R.Db)
      → R.entry db lock_key ≡ some (record { value = v; expires = now + lock_ttl * 1000 })
      → Holds now v db
  renewed_alive now v db e =
      (record { value = v; expires = now + lock_ttl * 1000 }, rw e (ground arith), refl)

  role_after :
      (b : Bool) (i : Instance)
      → ((if b then win i else lose i).instance_id ≡ i.instance_id)
        × ((if b then win i else lose i).is_leader ≡ b)
  unfolding win lose
  role_after b i = ground arith

  elect-Keeps :
      (market_open : Bool) (now : ℕ) (i : Instance) (db : R.Db)
      → (i.is_leader ≡ true → Holds now i.instance_id db)
      → Keeps now db (elect R market_open now i db)
  unfolding elect
  elect-Keeps false now i db h = (h, λ id k. k)
  elect-Keeps true now i db h = elim (Option-cases (alive now (R.entry db lock_key))) [
    | inl free ↦
        let (got, e) = R.set_nx_free lock_key i.instance_id lock_ttl now db free in
        let (same, role) = role_after (R.set_nx lock_key i.instance_id lock_ttl now db).0 i in
        ((λ _. rw same (renewed_alive now i.instance_id _ e)), λ id k. cc (k.1))
    | inr (l, taken) ↦
        let (got, e) = R.set_nx_taken lock_key i.instance_id lock_ttl now db taken in
        let (same, role) = role_after (R.set_nx lock_key i.instance_id lock_ttl now db).0 i in
        (
          (λ leads. cc (leads, role, got)),
          λ id k. (k.0, ap (λ (d : R.Db). alive now (R.entry d lock_key)) e ∙ k.1, k.2),
        )
  ]

  heartbeat-Keeps :
      (market_open : Bool) (now : ℕ) (i : Instance) (db : R.Db)
      → (i.is_leader ≡ true → Holds now i.instance_id db)
      → Keeps now db (heartbeat R market_open now i db)
  unfolding heartbeat
  heartbeat-Keeps m now i db h = elim (Option-cases (alive now (R.entry db lock_key))) [
    | inl free ↦
        let (got, e) = R.expire_gone lock_key lock_ttl now db free in
        let later = (R.expire lock_key lock_ttl now db).1 in
        let (leads, _) = elect-Keeps m now i later (λ leading. cc ((h leading).1)) in
        rw (got, heartbeat) (leads, λ id k. cc (k.1))
    | inr (l, taken) ↦
        let (got, e) = R.expire_alive lock_key lock_ttl now db taken in
        let later = (R.expire lock_key lock_ttl now db).1 in
        let kept : (id : String) → Holds now id db → Holds now id later = λ id k.
          (let (x, a, v) = renewed_alive now l.value later e in (x, a, cc (k.1, k.2, v, taken))) in
        rw (got, heartbeat) ((λ leads. kept i.instance_id (h leads)), kept)
  ]

  watch-Keeps :
      (market_open : Bool) (now : ℕ) (i : Instance) (db : R.Db)
      → (i.is_leader ≡ true → Holds now i.instance_id db)
      → Keeps now db (watch R market_open now i db)
  unfolding watch
  watch-Keeps m now i db h = elim (Option-cases (R.get lock_key now db)) [
    | inl e ↦ rw (e, watch) (elect-Keeps m now i db h)
    | inr (v, e) ↦ rw (e, watch) (h, λ id k. k)
  ]

  elect-id :
      (m : Bool) (now : ℕ) (i : Instance) (db : R.Db)
      → (elect R m now i db).0.instance_id ≡ i.instance_id
  unfolding elect
  elect-id true now i db = (role_after (R.set_nx lock_key i.instance_id lock_ttl now db).0 i).0
  elect-id false now i db = refl

  heartbeat-id :
      (m : Bool) (now : ℕ) (i : Instance) (db : R.Db)
      → (heartbeat R m now i db).0.instance_id ≡ i.instance_id
  unfolding heartbeat
  heartbeat-id m now i db = ground (arith, elect-id m now i (R.expire lock_key lock_ttl now db).1)

  watch-id :
      (m : Bool) (now : ℕ) (i : Instance) (db : R.Db)
      → (watch R m now i db).0.instance_id ≡ i.instance_id
  unfolding watch
  watch-id m now i db = ground (arith, elect-id m now i db)

module _ (R : LockStore) (ids : ℕ → String) where
  record Inv (s : System R) : Type 0 where
    named : (i : ℕ) (inst : Instance) → s.instances i ≡ some inst → inst.instance_id ≡ ids i
    held :
        (i : ℕ) (inst : Instance)
        → s.instances i ≡ some inst
        → inst.is_leader ≡ true
        → Holds R s.now inst.instance_id s.db

  after-Inv :
      (s : System R) (i : ℕ) (inst : Instance) (r : Instance × R.Db)
      → s.instances i ≡ some inst
      → Keeps R s.now s.db r
      → r.0.instance_id ≡ inst.instance_id
      → Inv s
      → Inv (after R s i r)
  after-Inv s i inst r e keeps same inv = record {
    named = λ j x f. elim (Bool-cases (i == j)) [
      | inl hit ↦ ground (arith, inv.named i inst e)
      | inr miss ↦ inv.named j x (ground arith)
    ];
    held = λ j x f leads. elim (Bool-cases (i == j)) [
      | inl hit ↦
          let g : r.0 ≡ x = ground arith in
          subst (λ (y : Instance). Holds R s.now y.instance_id r.1) g (keeps.0 (cc (g, leads)))
      | inr miss ↦ keeps.1 x.instance_id (inv.held j x (ground arith) leads)
    ];
  }

  -- Two instances that hold the lock at one time are one instance.
  same_holder :
      {s : System R}
      → ((i j : ℕ) → ids i ≡ ids j → i ≡ j)
      → Inv s
      → (i j : ℕ) (a b : Instance) → s.instances i ≡ some a
      → s.instances j ≡ some b
      → a.is_leader ≡ true
      → b.is_leader ≡ true
      → i ≡ j
  same_holder inj inv i j a b ea eb la lb =
      let (l, p, v) = inv.held i a ea la in
      let (m, q, w) = inv.held j b eb lb in
      inj i j (cc (p, q, v, w, inv.named i a ea, inv.named j b eb))

  stop-Inv :
      (s : System R) (i : ℕ) (inst : Instance)
      → ((i j : ℕ) → ids i ≡ ids j → i ≡ j)
      → s.instances i ≡ some inst
      → Inv s
      → Inv (record s { instances = update R s.instances i none; db = (shutdown R inst s.db).1 })
  unfolding shutdown
  stop-Inv s i inst inj e inv = record {
    named = λ j x f. inv.named j x (ground arith);
    held = λ j x f leads. elim (Bool-cases inst.is_leader) [
      | inl leader ↦
          let k = same_holder inj inv i j inst x e (ground arith) leader leads in ground arith
      | inr worker ↦
          rw (if_of_false _ (R.del lock_key s.db) s.db worker) (inv.held j x (ground arith) leads)
    ];
  }

  Step-Inv : ((i j : ℕ) → ids i ≡ ids j → i ≡ j) → {s t : System R} → Step R s t → Inv s → Inv t
  Step-Inv inj {s} (elects i inst m e) inv =
      after-Inv s i inst _ e (elect-Keeps R m s.now inst s.db (inv.held i inst e))
        (elect-id R m s.now inst s.db) inv
  Step-Inv inj {s} (beats i inst m e _) inv =
      after-Inv s i inst _ e (heartbeat-Keeps R m s.now inst s.db (inv.held i inst e))
        (heartbeat-id R m s.now inst s.db) inv
  Step-Inv inj {s} (watches i inst m e _) inv =
      after-Inv s i inst _ e (watch-Keeps R m s.now inst s.db (inv.held i inst e))
        (watch-id R m s.now inst s.db) inv
  Step-Inv inj {s} (stops i inst e) inv = stop-Inv s i inst inj e inv
  Step-Inv inj {s} (waits n timely) inv = record {
    named = inv.named;
    held = λ i inst e leads.
        let (l, a, v) = inv.held i inst e leads in
        let (b, c) =
          alive_later s.now n (R.entry s.db lock_key) l a (λ f. timely i inst l e leads f) in
        (l, c, v);
  }

  Reach-Inv : {s t : System R} → ((i j : ℕ) → ids i ≡ ids j → i ≡ j) → Inv s → Reach R s t → Inv t
  Reach-Inv inj inv here = inv
  Reach-Inv inj inv (next r st) = Step-Inv inj st (Reach-Inv inj inv r)

  fresh-Inv :
      {s : System R}
      → ((i : ℕ) (inst : Instance) → s.instances i ≡ some inst → inst ≡ new_instance (ids i))
      → Inv s
  fresh-Inv fresh = record {
    named = λ i inst e. ap (λ (x : Instance). x.instance_id) (fresh i inst e);
    held = λ i inst e leads. cc (leads, ap (λ (x : Instance). x.is_leader) (fresh i inst e));
  }

  -- While time never passes the lock's expiry under a leader, two instances never lead together.
  pub one_leader :
      {s t : System R}
      → ((i j : ℕ) → ids i ≡ ids j → i ≡ j)
      → ((i : ℕ) (inst : Instance) → s.instances i ≡ some inst → inst ≡ new_instance (ids i))
      → Reach R s t
      → (i j : ℕ) (a b : Instance) → t.instances i ≡ some a
      → t.instances j ≡ some b
      → a.is_leader ≡ true
      → b.is_leader ≡ true
      → i ≡ j
  one_leader inj fresh r i j a b = same_holder inj (Reach-Inv inj (fresh-Inv fresh) r) i j a b
