-- ===== src/ExchangeRate/Queries/Rates.antt =====
-- The rates that a history is filled up with.
use exchange_watch.Base.{
  ℕ, ◌/◌, ◌≡◌, refl, sym, ap, subst, ◌∙◌, Bool, true, false, not, ◌&&◌, some, Option-cases,
  Bool-cases, inl, inr, String, eq_iff, List, [], ◌∷◌, ◌++◌, ok, any, any-append, filter, All,
  All-filter_of, ◌==◌, arith, if◌then◌else◌,
}
use exchange_watch.Numbers.{Numbers}
use exchange_watch.Strings.{lookup}
use exchange_watch.Date.{ms_per_day, start_of_day, Dayjs, InUtc}
use exchange_watch.Date.Between.{days_from, day_count, get_dates_between_lem}
use exchange_watch.ExchangeRate.Daily.{
  DailyRate, DailyTable, dated, same_day_pair, with_rows, in_range, save_daily_rates,
  find_daily_rates,
}
use exchange_watch.ExchangeRate.Daily.Found.{any-filter, any-last, any-with_rows}
use exchange_watch.ExchangeRate.Queries.{
  TimeSeriesApi, or_nan, missing_records, missing_dates, last_of, fill_history,
  get_historical_rates,
}
use exchange_watch.ExchangeRate.Queries.History.{
  on_day, IsInside, period-IsInside, Answered, records-cover, found,
}
use exchange_watch.ExchangeRate.Queries.Refused.{Result-cases}

-- Whether a day is one of a list.
abbrev pub has_day : ℕ → List ℕ → Bool
has_day d days = any (λ e. e == d) days

All_of_has_day : (P : ℕ → Type 0) (d : ℕ) (days : List ℕ) → All P days → has_day d days ≡ true → P d
All_of_has_day P d [] a h = cc
All_of_has_day P d (e ∷ days) a h = elim (Bool-cases (e == d)) [
  | inl k ↦ let same : e ≡ d = ground (arith, k) in subst P same a.0
  | inr k ↦ All_of_has_day P d days a.1 (ground (arith, h, k))
]

passes-filter :
    (p : ℕ → Bool) (d : ℕ) (days : List ℕ) → has_day d (filter p days) ≡ true → p d ≡ true
passes-filter p d [] h = cc
passes-filter p d (e ∷ days) h = elim (Bool-cases (p e)) [
  | inr k ↦ passes-filter p d days (rw k at h)
  | inl k ↦ elim (Bool-cases (e == d)) [
    | inl s ↦ let same : e ≡ d = ground (arith, s) in subst (λ x. p x ≡ true) same k
    | inr s ↦ passes-filter p d days (let g = rw k at h in ground (arith, g, s))
  ]
]

module _ (N : Numbers) where
  -- A row of this day whose rate passes a test.
  abbrev pub of_rate : (N.Num → Bool) → ℕ → DailyRate N → Bool
  of_rate test d r = (r.rate_date == d) && test r.rate

module _ (N : Numbers) (base code : String) (started_at ended_at : ℕ) (T : DailyTable N)
    (D : Dayjs) where
  -- A row of the period's pair.
  abbrev row : ℕ → N.Num → DailyRate N
  row d rate = record { base_currency = base; currency_code = code; rate = rate; rate_date = d }

  abbrev in_period : (N.Num → Bool) → ℕ → DailyRate N → Bool
  in_period test d r = in_range N base code started_at ended_at r && of_rate N test d r

  -- A day that is not found has no row of the pair.
  no_pair :
      (d : ℕ) (rate : N.Num) (rows : List (DailyRate N))
      → IsInside N base code started_at ended_at d
      → any (on_day N base code started_at ended_at d) rows ≡ false
      → any (same_day_pair N (row d rate)) rows ≡ false
  no_pair d rate [] i h = refl
  no_pair d rate (r ∷ rows) i h = elim (Bool-cases (same_day_pair N (row d rate) r)) [
    | inr k ↦ ground (arith, k, no_pair d rate rows i (ground (arith, h)))
    | inl k ↦
        let b : base ≡ r.base_currency = (eq_iff base r.base_currency).0 (ground (arith, k)) in
        let c : code ≡ r.currency_code = (eq_iff code r.currency_code).0 (ground (arith, k)) in
        absurd (
          ground (
            arith,
            h,
            k,
            i,
            (eq_iff r.base_currency base).1 (sym b),
            (eq_iff r.currency_code code).1 (sym c),
          ))
  ]

  written_head :
      (test : N.Num → Bool) (d : ℕ) (rate : N.Num) (records rows : List (DailyRate N))
      (r : DailyRate N)
      → dated N r ≡ row d rate
      → IsInside N base code started_at ended_at d
      → test rate ≡ true
      → any (same_day_pair N (row d rate)) rows ≡ false
      → any (in_period test d) (with_rows N (r ∷ records) rows) ≡ true
  written_head test d rate records rows r kept i t none =
      let passes : in_period test d (row d rate) ≡ true =
        ground (arith, i, t, (eq_iff base base).1 refl, (eq_iff code code).1 refl) in
      subst
        (λ q.
          any (in_period test d)
            (with_rows N records (if any (same_day_pair N q) rows then rows else rows ++ q ∷ []))
          ≡ true)
        (sym kept)
        (rw none (
          any-with_rows N (in_period test d) records (rows ++ row d rate ∷ [])
            (any-last (in_period test d) rows (row d rate) passes)))

  written_rate :
      (test : N.Num → Bool) (rates : List (String × List (String × N.Num))) (d : ℕ)
      (of_day : List (String × N.Num)) (x : N.Num) (days : List ℕ)
      (rows records : List (DailyRate N))
      → missing_records N T D base code rates days ≡ ok records
      → All (λ e. start_of_day e ≡ e) days
      → IsInside N base code started_at ended_at d
      → has_day d days ≡ true
      → lookup (D.format d) rates ≡ some of_day
      → lookup code of_day ≡ some x
      → test (N.decimal (N.div (N.int 1) x)) ≡ true
      → any (same_day_pair N (row d (N.decimal (N.div (N.int 1) x)))) rows ≡ false
      → any (in_period test d) (with_rows N records rows) ≡ true
  unfolding missing_records
  written_rate test rates d of_day x [] rows records e m i h l c t none = cc
  written_rate test rates d of_day x (day ∷ days) rows records e m i h l c t none =
      elim (Option-cases (lookup (D.format day) rates)) [
        | inl k ↦ absurd (ground (arith, e, k))
        | inr (found_day, k) ↦ elim (Result-cases (missing_records N T D base code rates days)) [
          | inl (y, f) ↦ absurd (ground (arith, e, k, f))
          | inr (rest, f) ↦
              let r = row day (N.div (N.int 1) (or_nan N (lookup code found_day))) in
              let whole : r ∷ rest ≡ records = ground (arith, e, k, f) in
              subst (λ rs. any (in_period test d) (with_rows N rs rows) ≡ true) whole
                (elim (Bool-cases (day == d)) [
                  | inl s ↦
                      let same : day ≡ d = ground (arith, s) in
                      let again : lookup (D.format day) rates ≡ some of_day =
                        ap (λ y. lookup (D.format y) rates) same ∙ l in
                      let found_rate : lookup code found_day ≡ some x =
                        ground (arith, k, again, c) in
                      let kept : dated N r ≡ row d (N.decimal (N.div (N.int 1) x)) =
                        rw (found_rate, m.0, same) refl in
                      written_head test d (N.decimal (N.div (N.int 1) x)) rest rows r kept i t none
                  | inr s ↦
                      let apart : any (same_day_pair N (row d (N.decimal (N.div (N.int 1) x))))
                            (rows ++ dated N r ∷ [])
                          ≡ false =
                        any-append (same_day_pair N (row d (N.decimal (N.div (N.int 1) x)))) rows
                          (dated N r ∷ [])
                        ∙ ground (arith, none, s, m.0) in
                      let inside : has_day d days ≡ true = ground (arith, h, s) in
                      elim (Bool-cases (any (same_day_pair N (dated N r)) rows)) [
                        | inl q ↦ rw q (
                            written_rate test rates d of_day x days rows rest f m.1 i inside l c t
                              none)
                        | inr q ↦ rw q (
                            written_rate test rates d of_day x days (rows ++ dated N r ∷ []) rest f
                              m.1 i inside l c t apart)
                      ]
                ])
        ]
      ]

  midnights :
      (days : List ℕ)
      → All (IsInside N base code started_at ended_at) days
      → All (λ e. start_of_day e ≡ e) days
  midnights [] a = tt
  midnights (day ∷ days) a = (a.0.2, midnights days a.1)

  -- For dayjs in UTC, where the table lacks days of a period, and the API answers the request for them with a rate of the code for
  -- each, which the columns can hold: the history is answered, and for each of these days it has the inverse of the API's rate, as
  -- the column keeps it. That is, a rate of the day passes each test that this number passes.
  pub get_historical_rates-rate :
      (utc : InUtc D) (api : TimeSeriesApi N) (db : T.Db) (first : ℕ) (rest : List ℕ)
      (rates : List (String × List (String × N.Num))) (test : N.Num → Bool) (d : ℕ)
      (of_day : List (String × N.Num)) (x : N.Num)
      → missing_dates N T
          (find_daily_rates N T base code started_at ended_at db)
          (days_from (started_at / ms_per_day) (day_count started_at ended_at))
        ≡ first ∷ rest
      → api first (last_of first rest) base (code ∷ []) ≡ some rates
      → Answered N base code started_at ended_at T D rates (first ∷ rest)
      → has_day d (first ∷ rest) ≡ true
      → lookup (D.format d) rates ≡ some of_day
      → lookup code of_day ≡ some x
      → test (N.decimal (N.div (N.int 1) x)) ≡ true
      → (records : List (DailyRate N)) × (later : T.Db) × (get_historical_rates N T D api base code
            started_at ended_at db
          ≡ ok (records, later))
        × (any (of_rate N test d) records ≡ true)
  unfolding get_historical_rates fill_history save_daily_rates find_daily_rates
  get_historical_rates-rate utc api db first rest rates test d of_day x lacks answer a h l c t =
      let dates = days_from (started_at / ms_per_day) (day_count started_at ended_at) in
      let historical = find_daily_rates N T base code started_at ended_at db in
      let is_lacking : ℕ → Bool =
        λ e. not (any (λ (r : DailyRate N). r.rate_date == e) historical) in
      let all_inside : All (IsInside N base code started_at ended_at) (first ∷ rest) =
        subst (All (IsInside N base code started_at ended_at)) lacks (
          All-filter_of is_lacking (IsInside N base code started_at ended_at) dates
            (period-IsInside N base code started_at ended_at)) in
      let inside =
        All_of_has_day (IsInside N base code started_at ended_at) d (first ∷ rest) all_inside h in
      let lacking : is_lacking d ≡ true =
        passes-filter is_lacking d dates (subst (λ days. has_day d days ≡ true) (sym lacks) h) in
      let no_day : any (on_day N base code started_at ended_at d) (T.rows db) ≡ false =
        sym (found N base code started_at ended_at T D db d) ∙ ground (arith, lacking) in
      let (records, e, _, fit) =
        records-cover N base code started_at ended_at T D rates (first ∷ rest) all_inside a in
      let (later, w, rows) = T.create_many_fits records db fit in
      let written : any (in_period test d) (T.rows later) ≡ true = rw rows (
        written_rate test rates d of_day x (first ∷ rest) (T.rows db) records e
          (midnights (first ∷ rest) all_inside) inside h l c t
          (no_pair d (N.decimal (N.div (N.int 1) x)) (T.rows db) inside no_day)) in
      (
        find_daily_rates N T base code started_at ended_at later,
        later,
        rw
            (
              get_dates_between_lem D utc started_at ended_at,
              get_historical_rates,
              lacks,
              answer,
              fill_history,
              e,
              save_daily_rates,
              w,
            )
            refl,
        T.find_asc_any (in_range N base code started_at ended_at) (of_rate N test d) later
            ∙ any-filter (in_range N base code started_at ended_at) (of_rate N test d)
                (T.rows later)
            ∙ written,
      )
