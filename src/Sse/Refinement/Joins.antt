-- ===== src/Sse/Refinement/Joins.antt =====
-- A subscriber that joins.
use exchange_watch.Base.{
  suc, ◌<◌, ◌≡◌, ◌≢◌, refl, sym, ap, ◌∙◌, true, false, Option-cases, Bool-cases, inl, inr, some,
  none, String, str_eq, eq_iff, List, [], ◌∷◌, map, All, arith, ◌==◌, if◌then◌else◌,
}
use exchange_watch.Sse.{
  Subject, Signal, LatestRateSseService, subject_name, with_subject, get_last_rate_observable, next,
  complete,
}
use exchange_watch.Sse.Refinement.{Opening, Channels, join_channel, seen, MadeBefore, Sim, same_at}

module _ (A : Type 0) where
  -- The channels after a subscriber has joined one that has a subject.
  join-Sim-live :
      (serves : Subject → Opening) (s : LatestRateSseService A) (a : Channels A) (base : String)
      (n : Subject)
      → s.subjects (subject_name A base) ≡ some n
      → Sim A serves s a
      → Sim A serves
          ((get_last_rate_observable A base s).1)
          (join_channel A (subject_name A base) a)
  unfolding get_last_rate_observable with_subject
  join-Sim-live serves s a base n e sim =
      rw (e, get_last_rate_observable, with_subject)
        (record {
          counted = λ nm. ground (arith, sim.counted nm, sim.counted (subject_name A base));
          opened =
              λ nm. ground (arith, e, sim.opened nm, same_at A s.subjects (subject_name A base) nm);
          live = sim.live;
          current = sim.current;
          distinct = sim.distinct;
          bounded = sim.bounded;
          made = sim.made;
          traced = sim.traced;
        })

  -- The subject that is made next serves the opening that is asked for.
  abbrev serving_next : (Subject → Opening) → Subject → Opening → Subject → Opening
  serving_next serves n o m = if m == n then o else serves m

  seen-before :
      (serves : Subject → Opening) (n : Subject) (o : Opening) (signals : List (Signal A))
      → All (MadeBefore A n) signals
      → map (seen A (serving_next serves n o)) signals ≡ map (seen A serves) signals
  seen-before serves n o [] h = refl
  seen-before serves n o (next m x ∷ signals) h =
      let other : (m == n) ≡ false = ground (arith, h.0) in
      rw (other, seen-before serves n o signals h.1) refl
  seen-before serves n o (complete m ∷ signals) h =
      let other : (m == n) ≡ false = ground (arith, h.0) in
      rw (other, seen-before serves n o signals h.1) refl

  later-made :
      (n : Subject) (signals : List (Signal A))
      → All (MadeBefore A n) signals
      → All (MadeBefore A (suc n)) signals
  later-made n [] h = tt
  later-made n (next m x ∷ signals) h = (omega (arith, h.0), later-made n signals h.1)
  later-made n (complete m ∷ signals) h = (omega (arith, h.0), later-made n signals h.1)

  serving-made :
      (serves : Subject → Opening) (n m : Subject) (o : Opening)
      → (m == n) ≡ true
      → serving_next serves n o m ≡ o
  serving-made serves n m o h = rw h refl

  serving-old :
      (serves : Subject → Opening) (n m : Subject) (o : Opening)
      → (m == n) ≡ false
      → serving_next serves n o m ≡ serves m
  serving-old serves n m o h = rw h refl

  join-distinct :
      (serves : Subject → Opening) (s : LatestRateSseService A) (a : Channels A) (name : String)
      → s.subjects name ≡ none
      → Sim A serves s a
      → (m n : Subject) → m < suc s.next_subject
      → n < suc s.next_subject
      → serving_next serves s.next_subject (name, a.closings name) m
        ≡ serving_next serves s.next_subject (name, a.closings name) n
      → m ≡ n
  join-distinct serves s a name e sim m n lm ln p =
      let opening : Opening = (name, a.closings name) in
      let stale : (i : Subject) → i < s.next_subject → serves i ≢ opening =
        (λ i li q. cc (e, sim.current i name li q)) in
      elim (Bool-cases (m == s.next_subject)) [
        | inl hm ↦ elim (Bool-cases (n == s.next_subject)) [
          | inl hn ↦ ground (arith, hm, hn)
          | inr mn ↦ absurd (
              stale n (ground (arith, ln, mn)) (
                sym (
                  sym (serving-made serves s.next_subject m opening hm)
                  ∙ p
                  ∙ serving-old serves s.next_subject n opening mn)))
        ]
        | inr mm ↦ elim (Bool-cases (n == s.next_subject)) [
          | inl hn ↦ absurd (
              stale m (ground (arith, lm, mm)) (
                sym (serving-old serves s.next_subject m opening mm)
                ∙ p
                ∙ serving-made serves s.next_subject n opening hn))
          | inr mn ↦ sim.distinct m n (ground (arith, lm, mm)) (ground (arith, ln, mn)) (
              sym (serving-old serves s.next_subject m opening mm)
              ∙ p
              ∙ serving-old serves s.next_subject n opening mn)
        ]
      ]

  join-Sim-new :
      (serves : Subject → Opening) (s : LatestRateSseService A) (a : Channels A) (base : String)
      → s.subjects (subject_name A base) ≡ none
      → Sim A serves s a
      → Sim A
          (serving_next serves s.next_subject
            (subject_name A base, a.closings (subject_name A base)))
          ((get_last_rate_observable A base s).1)
          (join_channel A (subject_name A base) a)
  unfolding get_last_rate_observable with_subject
  join-Sim-new serves s a base e sim =
      let name : String = subject_name A base in
      let opening : Opening = (name, a.closings name) in
      rw (e, get_last_rate_observable, with_subject)
        (record {
          counted = λ nm. ground (arith, sim.counted nm, sim.counted name);
          opened = λ nm. ground (arith, e, sim.opened nm, same_at A s.subjects name nm);
          live = λ nm n h. elim (Bool-cases (str_eq name nm)) [
            | inl k ↦
                let hit : (n == s.next_subject) ≡ true = ground (arith, h, k) in
                (
                  serving-made serves s.next_subject n opening hit
                      ∙ ap (λ x. (x, a.closings x)) ((eq_iff name nm).0 k),
                  ground (arith, hit),
                )
            | inr k ↦
                let (p, lt) = sim.live nm n (ground (arith, h, k)) in
                (
                  serving-old serves s.next_subject n opening (ground (arith, lt)) ∙ p,
                  omega (arith, lt),
                )
          ];
          current = λ n nm lt p. elim (Bool-cases (n == s.next_subject)) [
            | inl hit ↦
                let same : name ≡ nm =
                  ap (λ (o : Opening). o.0)
                    (sym (serving-made serves s.next_subject n opening hit) ∙ p) in
                ground (arith, hit, (eq_iff name nm).1 same)
            | inr miss ↦
                let q =
                  sim.current n nm (ground (arith, lt, miss))
                    (sym (serving-old serves s.next_subject n opening miss) ∙ p) in
                ground (arith, q, e, same_at A s.subjects name nm)
          ];
          distinct = join-distinct serves s a name e sim;
          bounded = λ n nm k lt p. elim (Bool-cases (n == s.next_subject)) [
            | inl hit ↦
                let q = sym (serving-made serves s.next_subject n opening hit) ∙ p in
                let one : name ≡ nm = ap (λ (o : Opening). o.0) q in
                let two : a.closings name ≡ k = ap (λ (o : Opening). o.1) q in
                omega (arith, two, ap a.closings one)
            | inr miss ↦
                sim.bounded n nm k (ground (arith, lt, miss))
                  (sym (serving-old serves s.next_subject n opening miss) ∙ p)
          ];
          made = later-made s.next_subject s.signals sim.made;
          traced =
              seen-before serves s.next_subject (name, a.closings name) s.signals sim.made
              ∙ sim.traced;
        })

  pub join-Sim :
      (serves : Subject → Opening) (s : LatestRateSseService A) (a : Channels A) (base : String)
      → Sim A serves s a
      → (later : Subject → Opening) × Sim A later
          ((get_last_rate_observable A base s).1)
          (join_channel A (subject_name A base) a)
  join-Sim serves s a base sim = elim (Option-cases (s.subjects (subject_name A base))) [
    | inl e ↦ (_, join-Sim-new serves s a base e sim)
    | inr (n, e) ↦ (serves, join-Sim-live serves s a base n e sim)
  ]
