-- ===== src/ExchangeRate/Queries/Refused.antt =====
-- Codes that the columns of the daily rates cannot hold.
use exchange_watch.Base.{
  ℕ, suc, ◌+◌, ◌-◌, ◌*◌, ◌/◌, ◌<◌, ◌≡◌, ◌⊎◌, refl, ap, ◌∙◌, true, false, some, Option-cases, inl,
  inr, String, str_eq, List, [], ◌∷◌, any, filter, Result, ok, err, arith,
}
use exchange_watch.Numbers.{Numbers}
use exchange_watch.Strings.{lookup}
use exchange_watch.Date.{ms_per_day, Dayjs, InUtc, get_dates_between, get_yyyymmdd}
use exchange_watch.Date.Between.{days_from, day_count, get_dates_between_lem}
use exchange_watch.ExchangeRate.Daily.{
  DailyRate, DailyTable, in_range, refused, is_over_char_3, save_daily_rates, find_daily_rates,
}
use exchange_watch.ExchangeRate.Queries.{
  TimeSeriesApi, QueryError, last_of, missing_records, missing_dates, fill_history,
  get_historical_rates,
}
use exchange_watch.ExchangeRate.Queries.Fallback.{nil_of_any}

pub Result-cases :
    {E A : Type 0} (r : Result E A) → ((e : E) × (r ≡ err e)) ⊎ ((a : A) × (r ≡ ok a))
Result-cases (err e) = inl (e, refl)
Result-cases (ok a) = inr (a, refl)

module _ (N : Numbers) (T : DailyTable N) (D : Dayjs) (base code : String) where
  -- Where a day is missing, the rows for it are refused, whatever the answer.
  records-refused :
      (rates : List (String × List (String × N.Num))) (day : ℕ) (days : List ℕ)
      (records : List (DailyRate N))
      → is_over_char_3 code ≡ true
      → missing_records N T D base code rates (day ∷ days) ≡ ok records
      → any (refused N) records ≡ true
  unfolding missing_records
  records-refused rates day days records over e =
      elim (Option-cases (lookup (get_yyyymmdd D day) rates)) [
        | inl h ↦ absurd (ground (arith, e, h))
        | inr (of_day, h) ↦ elim (Result-cases (missing_records N T D base code rates days)) [
          | inl (x, k) ↦ absurd (ground (arith, e, h, k))
          | inr (rest, k) ↦ ground (arith, e, h, k, over)
        ]
      ]

  fill-fails :
      (api : TimeSeriesApi N) (started_at ended_at day : ℕ) (historical : List (DailyRate N))
      (days : List ℕ) (db : T.Db)
      → is_over_char_3 code ≡ true
      → (x : QueryError) × (fill_history N T D api base code started_at ended_at historical
            (day ∷ days)
            db
          ≡ err x)
  unfolding fill_history save_daily_rates
  fill-fails api s e day historical days db over =
      elim (Option-cases (api day (last_of day days) base (code ∷ []))) [
        | inl h ↦ (QueryError.api_failed, rw (fill_history, h) refl)
        | inr (rates, h) ↦
            elim (Result-cases (missing_records N T D base code rates (day ∷ days))) [
              | inl (x, k) ↦ (x, rw (fill_history, h, k) refl)
              | inr (records, k) ↦
                  let r =
                    T.create_many_refused records db
                      (records-refused rates day days records over k) in
                  (QueryError.database_failed, rw (fill_history, h, k, save_daily_rates, r) refl)
            ]
      ]

  none_of_code :
      (started_at ended_at : ℕ) (rows : List (DailyRate N))
      → any (λ (r : DailyRate N). str_eq r.currency_code code) rows ≡ false
      → any (λ _. true) (filter (in_range N base code started_at ended_at) rows) ≡ false
  none_of_code s e [] h = refl
  none_of_code s e (r ∷ rows) h = ground (arith, h, none_of_code s e rows)

  missing_of_none : (dates : List ℕ) → missing_dates N T [] dates ≡ dates
  missing_of_none [] = refl
  missing_of_none (d ∷ dates) = ap (λ ds. d ∷ ds) (missing_of_none dates)

  all_missing :
      (historical : List (DailyRate N)) (dates : List ℕ)
      → historical ≡ []
      → missing_dates N T historical dates ≡ dates
  all_missing historical dates e = ap (λ h. missing_dates N T h dates) e ∙ missing_of_none dates

  -- For dayjs in UTC, a period of a day or more, and a code that the column refuses, as no row has it: the history fails,
  -- whatever the API answers.
  pub get_historical_rates-fails :
      (utc : InUtc D) (api : TimeSeriesApi N) (started_at ended_at : ℕ) (db : T.Db)
      → is_over_char_3 code ≡ true
      → any (λ (r : DailyRate N). str_eq r.currency_code code) (T.rows db) ≡ false
      → started_at < ended_at
      → (x : QueryError) × (get_historical_rates N T D api base code started_at ended_at db ≡ err x)
  unfolding get_historical_rates days_from
  get_historical_rates-fails utc api s e db over absent lt =
      let n = day_count s e - 1 in
      let count : day_count s e ≡ suc n = ground (arith, lt) in
      let listed : get_dates_between D s e ≡ some (days_from (s / ms_per_day) (suc n)) =
        get_dates_between_lem D utc s e ∙ ap (λ k. some (days_from (s / ms_per_day) k)) count in
      let historical = find_daily_rates N T base code s e db in
      let nothing : historical ≡ [] = nil_of_any _ (
        T.find_asc_any (in_range N base code s e) (λ _. true) db
        ∙ none_of_code s e (T.rows db) absent) in
      let missing = all_missing historical (days_from (s / ms_per_day) (suc n)) nothing in
      let (x, f) =
        fill-fails api s e (s / ms_per_day * ms_per_day) historical
          (days_from (s / ms_per_day + 1) n) db over in
      (
        x,
        rw (get_historical_rates, listed)
            (ap (λ ds. fill_history N T D api base code s e historical ds db) missing ∙ f),
      )
