-- ===== src/Sse/Controller/Silent.antt =====
-- A client that asks for a base in other letters than the rates have: it is let in, and hears nothing.
use exchange_watch.Base.{
  ◌<◌, ◌≡◌, refl, sym, ap, ◌∙◌, true, false, none, some, String, str_eq, eq_iff, List, [], ◌∷◌,
  ◌++◌, any, ok, Bool-cases, Option-cases, inl, inr, arith, ◌==◌, if◌then◌else◌,
}
use exchange_watch.Strings.{remove_first}
use exchange_watch.Strings.Laws.{remove_first-append}
use exchange_watch.Requests.{Value, is_valid_currency_code}
use exchange_watch.Sse.{
  Subject, LatestRateSseService, Signal, next, complete, subject_name, with_subject,
  get_last_rate_observable, emit_event,
}
use exchange_watch.Sse.Controller.{accepts_latest_rate, latest_rate_sse}

module _ (A : Type 0) where
  -- What the observers of a subject have been sent.
  abbrev pub received : Subject → List (Signal A) → List A
  received n [] = []
  received n (next m a ∷ signals) = if m == n then a ∷ received n signals else received n signals
  received n (complete m ∷ signals) = received n signals

  -- Events for one base, one after the other.
  abbrev pub emits : String → List A → LatestRateSseService A → LatestRateSseService A
  emits base [] s = s
  emits base (x ∷ xs) s = emits base xs (emit_event A base x s)

  received-append :
      (n m : Subject) (x : A) (signals : List (Signal A))
      → (m == n) ≡ false
      → received n (signals ++ next m x ∷ []) ≡ received n signals
  received-append n m x [] ne = rw ne refl
  received-append n m x (next k a ∷ signals) ne = rw (received-append n m x signals ne) refl
  received-append n m x (complete k ∷ signals) ne = received-append n m x signals ne

  other_name :
      (a b : String) → str_eq a b ≡ false → str_eq (subject_name A a) (subject_name A b) ≡ false
  other_name a b ne = elim (Bool-cases (str_eq (subject_name A a) (subject_name A b))) [
    | inl h ↦
        let same : a ≡ b =
          sym (remove_first-append "latest-rate:" a)
          ∙ ap (remove_first "latest-rate:") ((eq_iff (subject_name A a) (subject_name A b)).0 h)
          ∙ remove_first-append "latest-rate:" b in
        absurd (ground (arith, (eq_iff a b).1 same, ne))
    | inr h ↦ h
  ]

  emit_event-keeps :
      (base : String) (n : Subject) (x : A) (s : LatestRateSseService A)
      → ((m : Subject) → s.subjects (subject_name A base) ≡ some m → (m == n) ≡ false)
      → ((emit_event A base x s).subjects ≡ s.subjects)
        × (received n (emit_event A base x s).signals ≡ received n s.signals)
  unfolding emit_event
  emit_event-keeps base n x s other = elim (Option-cases (s.subjects (subject_name A base))) [
    | inl h ↦ rw (h, emit_event) (refl, refl)
    | inr (m, h) ↦ rw (h, emit_event) (refl, received-append n m x s.signals (other m h))
  ]

  emits-received :
      (base : String) (n : Subject) (xs : List A) (s : LatestRateSseService A)
      → ((m : Subject) → s.subjects (subject_name A base) ≡ some m → (m == n) ≡ false)
      → received n (emits base xs s).signals ≡ received n s.signals
  emits-received base n [] s other = refl
  emits-received base n (x ∷ xs) s other =
      let (same, kept) = emit_event-keeps base n x s other in
      emits-received base n xs (emit_event A base x s)
        (λ m h. other m (sym (ap (λ subjects. subjects (subject_name A base)) same) ∙ h))
      ∙ kept

  joined :
      (base : String) (s : LatestRateSseService A)
      → s.subjects (subject_name A base) ≡ none
      → str_eq base "KRW" ≡ false
      → ((get_last_rate_observable A base s).0 ≡ some s.next_subject)
        × ((get_last_rate_observable A base s).1.subjects (subject_name A "KRW")
            ≡ s.subjects (subject_name A "KRW"))
        × ((get_last_rate_observable A base s).1.signals ≡ s.signals)
  unfolding get_last_rate_observable with_subject
  joined base s free ne =
      let other = other_name base "KRW" ne in
      let self = (eq_iff (subject_name A base) (subject_name A base)).1 refl in
      rw (get_last_rate_observable, with_subject, free, other, self) (refl, refl, refl)

module _ (to_upper_case : String → String) (codes : List String) (A : Type 0) where
  accepted :
      (base : String)
      → str_eq base "" ≡ false
      → any (str_eq (to_upper_case base)) codes ≡ true
      → accepts_latest_rate to_upper_case codes A (Value.text base) ≡ true
  unfolding accepts_latest_rate is_valid_currency_code
  accepted base some_text known = ground (arith, some_text, known)

  -- A bug: a client asks for the rates of a base that is no empty text and is a code in capitals, but is not written KRW, such as
  -- krw. Where its channel has no subscriber yet, and each subject has a number that has been given, it is let in and has a
  -- new subject, and however many rates of the base KRW are emitted from then on, its subject is sent none.
  pub latest_rate_sse-silent :
      (base : String) (xs : List A) (s : LatestRateSseService A)
      → str_eq base "" ≡ false
      → any (str_eq (to_upper_case base)) codes ≡ true
      → str_eq base "KRW" ≡ false
      → s.subjects (subject_name A base) ≡ none
      → ((name : String) (m : Subject) → s.subjects name ≡ some m → m < s.next_subject)
      → (opened : LatestRateSseService A) × (latest_rate_sse to_upper_case codes A
            (Value.text base)
            s
          ≡ ok (some s.next_subject, opened))
        × (received A s.next_subject (emits A "KRW" xs opened).signals
            ≡ received A s.next_subject s.signals)
  unfolding latest_rate_sse
  latest_rate_sse-silent base xs s some_text known ne free numbered =
      let opened = (get_last_rate_observable A base s).1 in
      let (subject, krw, signals) = joined A base s free ne in
      let a = accepted base some_text known in
      (
        opened,
        rw (latest_rate_sse, a) (ap (λ o. ok (o, opened)) subject),
        emits-received A "KRW" s.next_subject xs opened
              (λ m h. ground (arith, numbered (subject_name A "KRW") m (sym krw ∙ h)))
            ∙ ap (received A s.next_subject) signals,
      )
