-- ===== src/Sse/Channels.antt =====
-- A channel exists exactly while it has subscribers.
use exchange_watch.Base.{
  ℕ, ◌-◌, ◌<◌, ◌≤◌, ◌≡◌, refl, sym, ap, true, Option-cases, inl, inr, is_some, some, none, String,
  str_eq, eq_iff, List, [], ◌∷◌, ◌++◌, arith, ltb,
}
use exchange_watch.Sse.{
  Subject, LatestRateSseService, count_of, subject_name, with_subject, get_last_rate_observable,
  emit_event, next, complete, clean_up_channel,
}

-- The calls that clients cause.
pub data Call (A : Type 0) : Type 0 where
  subscribe : String → Call A
  leave : String → Call A
  emit : String → A → Call A

module _ (A : Type 0) where
  unfoldable pub run : List (Call A) → LatestRateSseService A → LatestRateSseService A
  unfolding get_last_rate_observable clean_up_channel emit_event
  run [] s = s
  run (Call.subscribe base ∷ calls) s = run calls ((get_last_rate_observable A base s).1)
  run (Call.leave base ∷ calls) s = run calls (clean_up_channel A base s)
  run (Call.emit base x ∷ calls) s = run calls (emit_event A base x s)

  -- A name has a subject exactly where it has a count, and that is where the count is positive.
  pub record Agree (s : LatestRateSseService A) (name : String) : Type 0 where
    pub counted : is_some (s.subjects name) ≡ is_some (s.subscriber_counts name)
    pub positive :
        is_some (s.subscriber_counts name) ≡ ltb 0 (count_of A (s.subscriber_counts name))

  abbrev pub IsValid : LatestRateSseService A → Type 0
  IsValid s = (name : String) → Agree s name

  same_subject :
      (s : LatestRateSseService A) (a b : String) → str_eq a b ≡ true → s.subjects b ≡ s.subjects a
  same_subject s a b h = ap s.subjects (sym ((eq_iff a b).0 h))

  pub subscribe-IsValid :
      (base : String) (s : LatestRateSseService A)
      → IsValid s
      → IsValid ((get_last_rate_observable A base s).1)
  unfolding get_last_rate_observable with_subject
  subscribe-IsValid base s v name =
      let nm = subject_name A base in
      record {
        counted = ground (
          arith,
          (v name).counted,
          (v name).positive,
          (v nm).counted,
          (v nm).positive,
          same_subject s nm name,
        );
        positive = ground (
          arith,
          (v name).counted,
          (v name).positive,
          (v nm).counted,
          (v nm).positive,
          same_subject s nm name,
        );
      }

  pub leave-IsValid :
      (base : String) (s : LatestRateSseService A) → IsValid s → IsValid (clean_up_channel A base s)
  unfolding clean_up_channel
  leave-IsValid base s v name =
      let nm = subject_name A base in
      record {
        counted = ground (
          arith,
          (v name).counted,
          (v name).positive,
          (v nm).counted,
          (v nm).positive,
          same_subject s nm name,
        );
        positive = ground (
          arith,
          (v name).counted,
          (v name).positive,
          (v nm).counted,
          (v nm).positive,
          same_subject s nm name,
        );
      }

  pub emit-IsValid :
      (base : String) (x : A) (s : LatestRateSseService A)
      → IsValid s
      → IsValid (emit_event A base x s)
  unfolding emit_event
  emit-IsValid base x s v name = record {
    counted = ground (arith, (v name).counted);
    positive = ground (arith, (v name).positive);
  }

  -- After any calls of clients, in any order, on a service where subjects and counts agree, as in a new one, a channel has a
  -- subject exactly while its count of subscribers is positive.
  pub run-IsValid :
      (calls : List (Call A)) (s : LatestRateSseService A) → IsValid s → IsValid (run calls s)
  unfolding run
  run-IsValid [] s v = v
  run-IsValid (Call.subscribe base ∷ calls) s v = run-IsValid calls _ (subscribe-IsValid base s v)
  run-IsValid (Call.leave base ∷ calls) s v = run-IsValid calls _ (leave-IsValid base s v)
  run-IsValid (Call.emit base x ∷ calls) s v = run-IsValid calls _ (emit-IsValid base x s v)

  -- The number of subscribers of a currency.
  abbrev pub subscribers : String → LatestRateSseService A → ℕ
  subscribers base s = count_of A (s.subscriber_counts (subject_name A base))

  -- Where subjects and counts agree: an event is passed on to the channel's subject, once, if the channel has a subscriber, and
  -- otherwise nothing happens.
  pub emit_event_lem :
      (base : String) (x : A) (s : LatestRateSseService A)
      → IsValid s
      → (0 < subscribers base s
          → (subject : Subject) × (s.subjects (subject_name A base) ≡ some subject)
            × ((emit_event A base x s).signals ≡ s.signals ++ next subject x ∷ []))
        × (subscribers base s ≡ 0 → emit_event A base x s ≡ s)
  unfolding emit_event
  emit_event_lem base x s v =
      let a = v (subject_name A base) in
      (
        (λ h. elim (Option-cases (s.subjects (subject_name A base))) [
          | inl e ↦ absurd (ground (arith, e, h, a.counted, a.positive))
          | inr (y, e) ↦ (y, e, rw (e, emit_event) refl)
        ]),
        (λ h. elim (Option-cases (s.subjects (subject_name A base))) [
          | inl e ↦ rw (e, emit_event) refl
          | inr (y, e) ↦ absurd (ground (arith, e, h, a.counted, a.positive))
        ]),
      )

  -- Where subjects and counts agree: a subscriber that leaves lowers the count by one, and the subject stays as it is while
  -- others remain; with the last one the subject is completed, once, and forgotten.
  pub clean_up_channel_lem :
      (base : String) (s : LatestRateSseService A)
      → IsValid s
      → (2 ≤ subscribers base s
          → (subscribers base (clean_up_channel A base s) ≡ subscribers base s - 1)
            × ((clean_up_channel A base s).subjects ≡ s.subjects)
            × ((clean_up_channel A base s).signals ≡ s.signals))
        × (subscribers base s ≡ 1
            → (subject : Subject) × (s.subjects (subject_name A base) ≡ some subject)
              × (subscribers base (clean_up_channel A base s) ≡ 0)
              × ((clean_up_channel A base s).subjects (subject_name A base) ≡ none)
              × ((clean_up_channel A base s).signals ≡ s.signals ++ complete subject ∷ []))
  unfolding clean_up_channel
  clean_up_channel_lem base s v =
      let nm = subject_name A base in
      let a = v nm in
      let self = (eq_iff nm nm).1 refl in
      (
        (λ h. (ground (arith, h, self), ground (arith, h), ground (arith, h))),
        (λ h. elim (Option-cases (s.subjects nm)) [
          | inl e ↦ absurd (ground (arith, e, h, a.counted, a.positive))
          | inr (y, e) ↦
              (y, e, ground (arith, h, e, self), ground (arith, h, e, self), ground (arith, h, e))
        ]),
      )
