-- ===== src/ExchangeRate/Queries/History.antt =====
-- The history covers its period.
use exchange_watch.Base.{
  ℕ, zero, suc, ◌+◌, ◌*◌, ◌/◌, ◌≤◌, ◌<◌, ◌≡◌, refl, sym, ap, subst, ◌∙◌, Bool, true, ◌&&◌, some,
  Bool-cases, inl, inr, String, str_eq, eq_iff, List, [], ◌∷◌, ok, any, All, All-filter_of, ◌==◌,
  arith,
}
use exchange_watch.Numbers.{Numbers}
use exchange_watch.Strings.{lookup}
use exchange_watch.Date.{ms_per_day, start_of_day, Dayjs, InUtc, get_dates_between}
use exchange_watch.Date.Between.{days_from, day_count, get_dates_between_lem}
use exchange_watch.ExchangeRate.Daily.{
  DailyRate, DailyTable, with_rows, in_range, fits, save_daily_rates, find_daily_rates,
}
use exchange_watch.ExchangeRate.Queries.{
  TimeSeriesApi, missing_records, missing_dates, last_of, fill_history, get_historical_rates,
}
use exchange_watch.ExchangeRate.Daily.Found.{
  Fits, FitsDated, any-filter, any-with_rows, any_written,
}

module _ (N : Numbers) where
  module _ (base code : String) (started_at ended_at : ℕ) where
    abbrev pub on_day : ℕ → DailyRate N → Bool
    on_day d r = in_range N base code started_at ended_at r && (r.rate_date == d)

    on_day-Fits : (d : ℕ) → Fits N (on_day d)
    on_day-Fits d x y s e =
        let c : x.currency_code ≡ y.currency_code =
          (eq_iff x.currency_code y.currency_code).0 (ground (arith, s)) in
        let b : x.base_currency ≡ y.base_currency =
          (eq_iff x.base_currency y.base_currency).0 (ground (arith, s)) in
        ground (arith, e, s, ap (λ t. str_eq t base) b, ap (λ t. str_eq t code) c)

    on_day-FitsDated : (k : ℕ) → FitsDated N (on_day (k * ms_per_day))
    on_day-FitsDated k x e = ground (arith, e)

    -- A midnight of the period's days.
    abbrev pub IsInside : ℕ → Type 0
    IsInside d = (start_of_day started_at ≤ d) × (d ≤ start_of_day ended_at) × (start_of_day d ≡ d)

    days-IsInside :
        (n day : ℕ)
        → start_of_day started_at ≤ day * ms_per_day
        → (0 < n → (day + n) * ms_per_day ≤ start_of_day ended_at + ms_per_day)
        → All IsInside (days_from day n)
    unfolding days_from
    days-IsInside zero day le h = tt
    days-IsInside (suc n) day le h =
        let whole : (day + suc n) * ms_per_day ≤ start_of_day ended_at + ms_per_day =
          h (omega arith) in
        (
          (le, omega (arith, whole), omega arith),
          days-IsInside n (day + 1) (omega (arith, le)) (λ pos. omega (arith, whole)),
        )

    pub period-IsInside :
        All IsInside (days_from (started_at / ms_per_day) (day_count started_at ended_at))
    period-IsInside =
        days-IsInside (day_count started_at ended_at) (started_at / ms_per_day) (omega arith)
          (λ pos. ground (arith, pos))

    abbrev pub Covers : List (DailyRate N) → List ℕ → Type 0
    Covers rows days = All (λ d. any (on_day d) rows ≡ true) days

    pub Covers-cons :
        (r : DailyRate N) (rows : List (DailyRate N)) (days : List ℕ)
        → Covers rows days
        → Covers (r ∷ rows) days
    Covers-cons r rows [] c = tt
    Covers-cons r rows (d ∷ days) c = (ground (arith, c.0), Covers-cons r rows days c.1)

    module _ (T : DailyTable N) (D : Dayjs) where
      -- An answer has a rate of the code on this day, and the columns can hold the row of it.
      abbrev pub HasRate : List (String × List (String × N.Num)) → ℕ → Type 0
      HasRate rates d =
          (of_day : List (String × N.Num)) × (lookup (D.format d) rates ≡ some of_day)
          × (rate : N.Num) × (lookup code of_day ≡ some rate)
          × (fits N (record {
            base_currency = base;
            currency_code = code;
            rate = N.div (N.int 1) rate;
            rate_date = d;
          })
              ≡ true)

      abbrev pub Answered : List (String × List (String × N.Num)) → List ℕ → Type 0
      Answered rates days = All (HasRate rates) days

      pub records-cover :
          (rates : List (String × List (String × N.Num))) (days : List ℕ)
          → All IsInside days
          → Answered rates days
          → (records : List (DailyRate N)) × (missing_records N T D base code rates days
              ≡ ok records)
            × Covers records days
            × All (λ r. fits N r ≡ true) records
      unfolding missing_records
      records-cover rates [] i a = ([], refl, tt, tt)
      records-cover rates (d ∷ days) i ((of_day, h, rate, l, fit), a) =
          let (records, e, c, all) = records-cover rates days i.1 a in
          let r : DailyRate N = record {
            base_currency = base;
            currency_code = code;
            rate = N.div (N.int 1) rate;
            rate_date = d;
          } in
          (
            r ∷ records,
            rw (h, missing_records, l, e) refl,
            (
              ground (arith, i.0, (eq_iff base base).1 refl, (eq_iff code code).1 refl),
              Covers-cons r records days c,
            ),
            (fit, all),
          )

      written-Covers :
          (records : List (DailyRate N)) (rows : List (DailyRate N)) (days : List ℕ)
          → All IsInside days
          → Covers records days
          → Covers (with_rows N records rows) days
      written-Covers records rows [] i c = tt
      written-Covers records rows (d ∷ days) i c = (
        any_written N (on_day d) records rows (on_day-Fits d)
            (subst (λ k. FitsDated N (on_day k)) i.0.2 (on_day-FitsDated (d / ms_per_day))) c.0,
        written-Covers records rows days i.1 c.1,
      )

      -- The answer to the request for some days, if there are any.
      abbrev pub Answers : TimeSeriesApi N → List ℕ → Type 0
      Answers api [] = Unit
      Answers api (day ∷ days) =
          (rates : List (String × List (String × N.Num))) × (api day (last_of day days) base
              (code ∷ [])
            ≡ some rates)
          × Answered rates (day ∷ days)

      fill-cover :
          (api : TimeSeriesApi N) (days : List ℕ) (db : T.Db)
          → All IsInside days
          → Answers api days
          → (later : T.Db) × (fill_history N T D api base code started_at ended_at
                (find_daily_rates N T base code started_at ended_at db)
                days
                db
              ≡ ok (find_daily_rates N T base code started_at ended_at later, later))
            × Covers (T.rows later) days
            × ((d : ℕ) → any (on_day d) (T.rows db) ≡ true → any (on_day d) (T.rows later) ≡ true)
      unfolding fill_history save_daily_rates
      fill-cover api [] db i a = (db, refl, tt, (λ d h. h))
      fill-cover api (day ∷ days) db i (rates, e, a) =
          let (records, f, c, all) = records-cover rates (day ∷ days) i a in
          let (later, w, rows) = T.create_many_fits records db all in
          (
            later,
            rw (e, fill_history, f, save_daily_rates, w) refl,
            subst (λ rs. Covers rs (day ∷ days)) (sym rows)
                (written-Covers records (T.rows db) (day ∷ days) i c),
            (λ d h. ap (any (on_day d)) rows ∙ any-with_rows N (on_day d) records (T.rows db) h),
          )

      pub found :
          (db : T.Db) (d : ℕ)
          → any
              (λ (r : DailyRate N). r.rate_date == d)
              (find_daily_rates N T base code started_at ended_at db)
            ≡ any (on_day d) (T.rows db)
      unfolding find_daily_rates
      found db d =
          T.find_asc_any (in_range N base code started_at ended_at)
            (λ (r : DailyRate N). r.rate_date == d) db
          ∙ any-filter (in_range N base code started_at ended_at)
              (λ (r : DailyRate N). r.rate_date == d) (T.rows db)

      all_found :
          (db later : T.Db) (dates : List ℕ)
          → Covers
              (T.rows later)
              (missing_dates N T (find_daily_rates N T base code started_at ended_at db) dates)
          → ((d : ℕ) → any (on_day d) (T.rows db) ≡ true → any (on_day d) (T.rows later) ≡ true)
          → All
              (λ d.
                any
                  (λ (r : DailyRate N). r.rate_date == d)
                  (find_daily_rates N T base code started_at ended_at later)
                ≡ true)
              dates
      all_found db later [] c keep = tt
      all_found db later (d ∷ dates) c keep =
          elim (Bool-cases (
            any (λ (r : DailyRate N). r.rate_date == d)
              (find_daily_rates N T base code started_at ended_at db))) [
                | inl h ↦ (
                  found later d ∙ keep d (sym (found db d) ∙ h),
                  all_found db later dates (rw h at c) keep,
                )
                | inr h ↦
                    let k = rw h at c in (found later d ∙ k.0, all_found db later dates k.1 keep)
              ]

      -- For dayjs in UTC, a period from any time to any time: where the API answers the request for the days that the table
      -- lacks, if there are any, with a rate of the code for each, which the columns can hold, the history is answered, and it has a rate of every day of the period.
      pub get_historical_rates_lem :
          (utc : InUtc D) (api : TimeSeriesApi N) (db : T.Db)
          → Answers api (
              missing_dates N T
                (find_daily_rates N T base code started_at ended_at db)
                (days_from (started_at / ms_per_day) (day_count started_at ended_at)))
          → (records : List (DailyRate N)) × (later : T.Db) × (get_historical_rates N T D api base
                code started_at ended_at db
              ≡ ok (records, later))
            × All
                (λ d. any (λ (r : DailyRate N). r.rate_date == d) records ≡ true)
                (days_from (started_at / ms_per_day) (day_count started_at ended_at))
      unfolding get_historical_rates
      get_historical_rates_lem utc api db a =
          let dates = days_from (started_at / ms_per_day) (day_count started_at ended_at) in
          let missing =
            missing_dates N T (find_daily_rates N T base code started_at ended_at db) dates in
          let inside : All IsInside dates = period-IsInside in
          let (later, e, c, keep) =
            fill-cover api missing db (All-filter_of _ IsInside dates inside) a in
          let listed : get_dates_between D started_at ended_at ≡ some dates =
            get_dates_between_lem D utc started_at ended_at in
          (
            find_daily_rates N T base code started_at ended_at later,
            later,
            rw (listed, get_historical_rates) e,
            all_found db later dates c keep,
          )
