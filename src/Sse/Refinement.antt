-- ===== src/Sse/Refinement.antt =====
-- The service against a count of subscribers for each channel, which knows no subjects.
pub mod Joins
pub mod Leaves
pub mod Runs
use exchange_watch.Base.{
  ℕ, suc, ◌+◌, ◌-◌, ◌<◌, ◌≤◌, ◌≡◌, ◌≢◌, refl, sym, ap, subst, ◌∙◌, Bool, true, false, Option,
  Option-cases, Bool-cases, inl, inr, is_some, some, none, String, str_eq, eq_iff, List, [], ◌∷◌,
  ◌++◌, map, All, All-append, arith, ltb, ◌==◌, if◌then◌else◌,
}
use exchange_watch.Sse.{
  Subject, Signal, LatestRateSseService, new_service, count_of, subject_name, with_subject,
  get_last_rate_observable, emit_event, next, complete, clean_up_channel,
}
use exchange_watch.Sse.Channels.{Call, run, subscribers}

-- A channel from its first subscriber to its last: the channel's name, and how often it has been closed before.
abbrev pub Opening : Type 0
Opening = String × ℕ

-- What clients see.
pub data Output (A : Type 0) : Type 0 where
  event : Opening → A → Output A
  closed : Opening → Output A

pub record Channels (A : Type 0) : Type 0 where
  pub counts : String → ℕ
  pub closings : String → ℕ
  pub outputs : List (Output A)

module _ (A : Type 0) where
  abbrev pub no_channels : Channels A
  no_channels = record { counts = λ name. 0; closings = λ name. 0; outputs = [] }

  abbrev with_count : String → ℕ → (String → ℕ) → String → ℕ
  with_count name n f j = if str_eq name j then n else f j

  -- The calls on the counts alone.
  abbrev pub join_channel : String → Channels A → Channels A
  join_channel name a = record a { counts = with_count name (a.counts name + 1) a.counts }

  abbrev pub leave_channel : String → Channels A → Channels A
  leave_channel name a =
      if a.counts name == 1
      then record {
        counts = with_count name 0 a.counts;
        closings = with_count name (a.closings name + 1) a.closings;
        outputs = a.outputs ++ closed (name, a.closings name) ∷ [];
      }
      else record a { counts = with_count name (a.counts name - 1) a.counts }

  abbrev pub emit_to_channel : String → A → Channels A → Channels A
  emit_to_channel name x a =
      if a.counts name == 0
      then a
      else record a { outputs = a.outputs ++ event (name, a.closings name) x ∷ [] }

  abbrev pub run_channels : List (Call A) → Channels A → Channels A
  run_channels [] a = a
  run_channels (Call.subscribe base ∷ calls) a =
      run_channels calls (join_channel (subject_name A base) a)
  run_channels (Call.leave base ∷ calls) a =
      run_channels calls (leave_channel (subject_name A base) a)
  run_channels (Call.emit base x ∷ calls) a =
      run_channels calls (emit_to_channel (subject_name A base) x a)

  -- A signal as clients see it, given which opening of a channel each subject serves.
  abbrev pub seen : (Subject → Opening) → Signal A → Output A
  seen serves (next subject x) = event (serves subject) x
  seen serves (complete subject) = closed (serves subject)

  abbrev MadeBefore : Subject → Signal A → Type 0
  MadeBefore n (next subject x) = subject < n
  MadeBefore n (complete subject) = subject < n

  record Sim (serves : Subject → Opening) (s : LatestRateSseService A) (a : Channels A)
      : Type 0 where
    counted : (name : String) → count_of A (s.subscriber_counts name) ≡ a.counts name
    opened : (name : String) → is_some (s.subjects name) ≡ ltb 0 (a.counts name)
    live :
        (name : String) (n : Subject)
        → s.subjects name ≡ some n
        → (serves n ≡ (name, a.closings name)) × (n < s.next_subject)
    current :
        (n : Subject) (name : String)
        → n < s.next_subject
        → serves n ≡ (name, a.closings name)
        → s.subjects name ≡ some n
    distinct :
        (m n : Subject) → m < s.next_subject → n < s.next_subject → serves m ≡ serves n → m ≡ n
    bounded :
        (n : Subject) (name : String) (k : ℕ)
        → n < s.next_subject
        → serves n ≡ (name, k)
        → k ≤ a.closings name
    made : All (MadeBefore s.next_subject) s.signals
    traced : map (seen serves) s.signals ≡ a.outputs

  same_at : {B : Type 0} (f : String → B) (a b : String) → str_eq a b ≡ true → f a ≡ f b
  same_at f a b h = ap f ((eq_iff a b).0 h)

  map-append : {B C : Type 0} (f : B → C) (xs ys : List B) → map f (xs ++ ys) ≡ map f xs ++ map f ys
  map-append f [] ys = refl
  map-append f (x ∷ xs) ys = ap (λ rest. f x ∷ rest) (map-append f xs ys)
