-- ===== src/Sse/Refinement/Leaves.antt =====
-- A subscriber that leaves, and an event.
use exchange_watch.Base.{
  ◌+◌, ◌-◌, ◌≡◌, refl, ap, ◌∙◌, true, false, Option-cases, Bool-cases, inl, inr, some, none, String,
  str_eq, [], ◌∷◌, ◌++◌, All-append, arith, ◌==◌,
}
use exchange_watch.Sse.{
  Subject, LatestRateSseService, count_of, subject_name, emit_event, next, complete,
  clean_up_channel,
}
use exchange_watch.Sse.Refinement.{
  Opening, event, closed, Channels, with_count, leave_channel, emit_to_channel, seen, MadeBefore,
  Sim, same_at, map-append,
}

module _ (A : Type 0) where
  pub emit-Sim :
      (serves : Subject → Opening) (s : LatestRateSseService A) (a : Channels A) (base : String)
      (x : A)
      → Sim A serves s a
      → Sim A serves (emit_event A base x s) (emit_to_channel A (subject_name A base) x a)
  unfolding emit_event
  emit-Sim serves s a base x sim =
      let name = subject_name A base in
      elim (Option-cases (s.subjects name)) [
        | inl e ↦
            let z : (a.counts name == 0) ≡ true = ground (arith, e, sim.opened name) in
            rw (e, emit_event, z) sim
        | inr (n, e) ↦
            let z : (a.counts name == 0) ≡ false = ground (arith, e, sim.opened name) in
            rw (e, emit_event, z)
              (record {
                counted = sim.counted;
                opened = sim.opened;
                live = sim.live;
                current = sim.current;
                distinct = sim.distinct;
                bounded = sim.bounded;
                made =
                    All-append (MadeBefore A s.next_subject) s.signals (next n x ∷ []) sim.made
                      ((sim.live name n e).1, tt);
                traced =
                    map-append A (seen A serves) s.signals (next n x ∷ [])
                    ∙ ap (λ out. out ++ event (serves n) x ∷ []) sim.traced
                    ∙ ap (λ o. a.outputs ++ event o x ∷ []) (sim.live name n e).0;
              })
      ]

  -- The last subscriber leaves.
  leave-Sim-last :
      (serves : Subject → Opening) (s : LatestRateSseService A) (a : Channels A) (base : String)
      (n : Subject)
      → s.subjects (subject_name A base) ≡ some n
      → a.counts (subject_name A base) ≡ 1
      → Sim A serves s a
      → Sim A serves (clean_up_channel A base s) (leave_channel A (subject_name A base) a)
  unfolding clean_up_channel
  leave-Sim-last serves s a base n e one sim =
      let name : String = subject_name A base in
      let c : count_of A (s.subscriber_counts name) ≡ 1 = sim.counted name ∙ one in
      rw (c, one, e, clean_up_channel)
        (record {
          counted = λ nm. ground (arith, sim.counted nm);
          opened = λ nm. ground (arith, sim.opened nm);
          live = λ nm m h.
              let other : str_eq name nm ≡ false = ground (arith, h) in
              rw other (sim.live nm m (ground (arith, h)));
          current = λ m nm lt p. elim (Bool-cases (str_eq name nm)) [
            | inl k ↦
                let high =
                  sim.bounded m nm (with_count A name (a.closings name + 1) a.closings nm) lt p in
                absurd (ground (arith, high, same_at A a.closings name nm k, k))
            | inr k ↦
                let kept : with_count A name (a.closings name + 1) a.closings nm ≡ a.closings nm =
                  rw k refl in
                rw k (sim.current m nm lt (p ∙ ap (λ x. (nm, x)) kept))
          ];
          distinct = sim.distinct;
          bounded =
              λ m nm k lt p. ground (arith, sim.bounded m nm k lt p, same_at A a.closings name nm);
          made =
              All-append (MadeBefore A s.next_subject) s.signals (complete n ∷ []) sim.made
                ((sim.live name n e).1, tt);
          traced =
              map-append A (seen A serves) s.signals (complete n ∷ [])
              ∙ ap (λ out. out ++ closed (serves n) ∷ []) sim.traced
              ∙ ap (λ o. a.outputs ++ closed o ∷ []) (sim.live name n e).0;
        })

  -- A subscriber leaves while others stay, or where there is none.
  leave-Sim-other :
      (serves : Subject → Opening) (s : LatestRateSseService A) (a : Channels A) (base : String)
      → (a.counts (subject_name A base) == 1) ≡ false
      → Sim A serves s a
      → Sim A serves (clean_up_channel A base s) (leave_channel A (subject_name A base) a)
  unfolding clean_up_channel
  leave-Sim-other serves s a base more sim =
      let name : String = subject_name A base in
      elim (Bool-cases (a.counts name == 0)) [
        | inl z ↦
            let c : count_of A (s.subscriber_counts name) ≡ 0 =
              ground (arith, sim.counted name, z) in
            let e : s.subjects name ≡ none = ground (arith, sim.opened name, z) in
            rw (c, more, e, clean_up_channel)
              (record {
                counted = λ nm. ground (arith, sim.counted nm, z);
                opened = λ nm. ground (arith, sim.opened nm, z, same_at A a.counts name nm);
                live = sim.live;
                current = sim.current;
                distinct = sim.distinct;
                bounded = sim.bounded;
                made = sim.made;
                traced = sim.traced;
              })
        | inr z ↦
            let c : (count_of A (s.subscriber_counts name) - 1 == 0) ≡ false =
              ground (arith, sim.counted name, z, more) in
            rw (c, more, clean_up_channel)
              (record {
                counted = λ nm. ground (arith, sim.counted nm, sim.counted name);
                opened = λ nm. ground (arith, sim.opened nm, z, more, same_at A a.counts name nm);
                live = sim.live;
                current = sim.current;
                distinct = sim.distinct;
                bounded = sim.bounded;
                made = sim.made;
                traced = sim.traced;
              })
      ]

  pub leave-Sim :
      (serves : Subject → Opening) (s : LatestRateSseService A) (a : Channels A) (base : String)
      → Sim A serves s a
      → Sim A serves (clean_up_channel A base s) (leave_channel A (subject_name A base) a)
  leave-Sim serves s a base sim = elim (Bool-cases (a.counts (subject_name A base) == 1)) [
    | inl h ↦ elim (Option-cases (s.subjects (subject_name A base))) [
      | inl e ↦ absurd (ground (arith, h, e, sim.opened (subject_name A base)))
      | inr (n, e) ↦ leave-Sim-last serves s a base n e (ground (arith, h)) sim
    ]
    | inr h ↦ leave-Sim-other serves s a base h sim
  ]
