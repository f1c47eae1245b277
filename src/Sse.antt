-- ===== src/Sse.antt =====
-- modules/sse/services/latest-rate-sse.service.ts: the channels of the latest rates, and their subscribers.
pub mod Channels
pub mod Refinement
pub mod Controller
mod Tests
use exchange_watch.Base.{
  ℕ, zero, suc, ◌+◌, ◌-◌, ◌≡◌, Bool, true, false, Option, none, some, String, str_eq, List, [], ◌∷◌,
  ◌++◌, if◌then◌else◌, ◌==◌,
}
use Prim.Native.String.{◌++◌ as str_append}

-- A Map from names: its `get`, with `set` and `delete`.
abbrev pub MapOf : Type 0 → Type 0
MapOf A = String → Option A

abbrev pub put : {A : Type 0} → String → Option A → MapOf A → MapOf A
put k o m j = if str_eq k j then o else m j

-- `Subject` of RxJS, which is no part of the repository: the number that tells subjects apart.
abbrev pub Subject : Type 0
Subject = ℕ

-- What is done to subjects: `next` and `complete`.
pub data Signal (A : Type 0) : Type 0 where
  next : Subject → A → Signal A
  complete : Subject → Signal A

module _ (A : Type 0) where
  pub record LatestRateSseService : Type 0 where
    pub subjects : MapOf Subject
    pub subscriber_counts : MapOf ℕ
    -- the number of the next subject, and what has been done to the subjects so far
    pub next_subject : Subject
    pub signals : List (Signal A)

  abbrev pub new_service : LatestRateSseService
  new_service = record {
    subjects = λ k. none;
    subscriber_counts = λ k. none;
    next_subject = 0;
    signals = [];
  }

  -- `this.subscriberCounts.get(subjectName) || 0`
  abbrev pub count_of : Option ℕ → ℕ
  count_of none = 0
  count_of (some n) = n

  abbrev pub subject_name : String → String
  subject_name base_currency = str_append "latest-rate:" base_currency

  -- The subject of a name, made where there is none.
  with_subject : String → LatestRateSseService → LatestRateSseService
  with_subject name s = elim (s.subjects name) [
    | some subject ↦ s
    | none ↦ record s {
      subjects = put name (some s.next_subject) s.subjects;
      next_subject = suc s.next_subject;
    }
  ]

  -- `getLastRateObservable`, with the subject whose observable it returns
  pub get_last_rate_observable :
      String → LatestRateSseService → Option Subject × LatestRateSseService
  unfolding with_subject
  get_last_rate_observable base_currency s =
      let name = subject_name base_currency in
      let made = with_subject name s in
      let counted : LatestRateSseService = record made {
        subscriber_counts =
            put name (some (count_of (made.subscriber_counts name) + 1)) made.subscriber_counts;
      } in
      (counted.subjects name, counted)

  -- `emitEvent`
  pub emit_event : String → A → LatestRateSseService → LatestRateSseService
  emit_event base_currency data' s = elim (s.subjects (subject_name base_currency)) [
    | some subject ↦ record s { signals = s.signals ++ next subject data' ∷ [] }
    | none ↦ s
  ]

  -- `cleanUpChannel`
  pub clean_up_channel : String → LatestRateSseService → LatestRateSseService
  clean_up_channel base_currency s =
      let name = subject_name base_currency in
      let new_count = count_of (s.subscriber_counts name) - 1 in
      if new_count == 0
      then elim (s.subjects name) [
        | none ↦ record s { subscriber_counts = put name none s.subscriber_counts }
        | some subject ↦ record s {
          subjects = put name none s.subjects;
          subscriber_counts = put name none s.subscriber_counts;
          signals = s.signals ++ complete subject ∷ [];
        }
      ]
      else record s { subscriber_counts = put name (some new_count) s.subscriber_counts }
