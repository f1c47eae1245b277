-- ===== src/ExchangeRate/Queries.antt =====
-- exchange-rate.service.ts: the current rates, the history, and the daily rates.
pub mod Closed
pub mod History
pub mod Fallback
pub mod Repeats
pub mod Refused
pub mod Rates
use exchange_watch.Base.{
  ℕ, zero, suc, ◌+◌, ◌-◌, ◌<◌, ◌≡◌, Bool, true, false, not, ◌&&◌, ◌||◌, Option, none, some, String,
  str_eq, List, [], ◌∷◌, ◌++◌, map, filter, Result, ok, err, ◌>>=◌, if◌then◌else◌, ltb, leb, ◌==◌,
  length, any,
}
use exchange_watch.Numbers.{Numbers}
use exchange_watch.Date.{
  Dayjs, is_market_open, get_last_market_day, get_yesterday, get_yyyymmdd, get_dates_between,
}
use exchange_watch.Redis.Cache.{Client}
use exchange_watch.ExchangeRate.Constants.{support_currency_list, lookup}
use exchange_watch.ExchangeRate.Names.{get_currency_name_in_korean}
use exchange_watch.ExchangeRate.Daily.{DailyRate, DailyTable, save_daily_rates, find_daily_rates}
use exchange_watch.ExchangeRate.{FluctuationRate, get_latest_rate, get_latest_rate_health_check}

-- `rate_missing` is where the source reads a property of an undefined value, and `fuel_empty` is where
-- `get_dates_between` runs out of fuel, which it does not.
pub data QueryError : Type 0 where
  api_failed rate_missing database_failed fuel_empty : QueryError

-- What a call of the database returns or throws.
abbrev pub of_database : {A : Type 0} → Option A → Result QueryError A
of_database none = err QueryError.database_failed
of_database (some a) = ok a

abbrev pub last_of : ℕ → List ℕ → ℕ
last_of d [] = d
last_of d (x ∷ xs) = last_of x xs

-- An entry of an object.
abbrev pub put : {A : Type 0} → String → A → List (String × A) → List (String × A)
put k a [] = (k, a) ∷ []
put k a ((j, b) ∷ rest) = if str_eq j k then (k, a) ∷ rest else (j, b) ∷ put k a rest

-- `input.currencyCodes?.length ? input.currencyCodes : …`
abbrev pub target_codes : String → List String → List String
target_codes base [] = filter (λ code. not (str_eq code base)) support_currency_list
target_codes base (code ∷ codes) = code ∷ codes

-- Whether the latest rates of Redis are less than ten seconds old.
abbrev pub is_cache_hit : ℕ → Option ℕ → Bool
is_cache_hit now none = false
is_cache_hit now (some checked) = ltb now (checked + 10000)

module _ (N : Numbers) where
  open N use {Num}

  -- `RateDetail`
  pub record RateDetail : Type 0 where
    pub rate : Num
    pub day_change : Num
    pub day_change_percent : Num
    pub timestamp : ℕ
    pub name : Option String

  -- What the external APIs answer, with `none` where they throw.
  abbrev pub LatestApi : Type 0
  LatestApi = String → Option (ℕ × List (String × Num))

  abbrev pub ChangeApi : Type 0
  ChangeApi = ℕ → ℕ → String → List String → Option (List (String × FluctuationRate N))

  abbrev pub TimeSeriesApi : Type 0
  TimeSeriesApi = ℕ → ℕ → String → List String → Option (List (String × List (String × Num)))

  -- `convertRatesAndChange`
  unfoldable pub convert_rates_and_change : Num → Num → Num × Num
  convert_rates_and_change current_raw_rate previous_raw_rate =
      let converted_rate = N.div (N.int 1) current_raw_rate in
      (converted_rate, N.sub converted_rate (N.div (N.int 1) previous_raw_rate))

  -- What arithmetic makes of a number that may be undefined.
  abbrev or_nan : Option Num → Num
  or_nan none = N.nan
  or_nan (some x) = x

  -- `Math.round(x * 10000) / 10000`
  abbrev round_4 : Num → Num
  round_4 x = N.div (N.round (N.mul x (N.int 10000))) (N.int 10000)

  -- `Number(s)` of a field that may be null, and of no such field
  abbrev number_of : List (Option String) → ℕ → Num
  number_of [] i = N.nan
  number_of (none ∷ rest) zero = N.int 0
  number_of (some s ∷ rest) zero = N.parse s
  number_of (x ∷ rest) (suc i) = number_of rest i

  abbrev date_of : List (Option String) → ℕ → ℕ
  date_of [] i = 0
  date_of (none ∷ rest) zero = 0
  date_of (some s ∷ rest) zero = N.parse_int s
  date_of (x ∷ rest) (suc i) = date_of rest i

  module _ (upper : String → String) where
    -- A detail of the cached rates: the fields are change, changePct, rate, timestamp and openRate.
    unfoldable pub cached_detail : Bool → String → List (Option String) → RateDetail
    unfolding convert_rates_and_change get_currency_name_in_korean
    cached_detail is_market_open code fields =
        let (rate, change) = convert_rates_and_change (number_of fields 2) (number_of fields 4) in
        record {
          rate = round_4 rate;
          day_change = if is_market_open then change else N.int 0;
          day_change_percent = if is_market_open then number_of fields 1 else N.int 0;
          timestamp = date_of fields 3;
          name = get_currency_name_in_korean upper code;
        }

    -- [1] The cache is hit.
    unfoldable pub from_cache :
        (C : Client) → Bool → List String → C.Db → List (String × RateDetail)
    unfolding cached_detail get_latest_rate
    from_cache C is_market_open [] db = []
    from_cache C is_market_open (code ∷ codes) db =
        put code
          (cached_detail is_market_open code (
            get_latest_rate C "KRW" code
              ("change" ∷ "changePct" ∷ "rate" ∷ "timestamp" ∷ "openRate" ∷ []) db))
          (from_cache C is_market_open codes db)

    -- [2-1] The market is open: the loop over what the APIs answered.
    unfoldable pub from_apis :
        ℕ
        → List (String × Num)
        → List (String × FluctuationRate N)
        → List String
        → Result QueryError (List (String × RateDetail))
    unfolding convert_rates_and_change get_currency_name_in_korean
    from_apis date latest changes [] = ok []
    from_apis date latest changes (code ∷ codes) =
        let rest = from_apis date latest changes codes in
        let raw_rate = or_nan (lookup code latest) in
        elim (lookup code changes) [
          | none ↦ err rate_missing
          | some c ↦
              let (rate, change) = convert_rates_and_change raw_rate c.start_rate in
              rest >>= (λ details.
                (ok (
                  put code
                    (record {
                      rate = round_4 rate;
                      day_change = change;
                      day_change_percent = c.change_pct;
                      timestamp = date;
                      name = get_currency_name_in_korean upper code;
                    })
                    details)))
        ]

    -- [2-2] The market is closed: the loop over the snapshots.
    unfoldable pub from_snapshots : List (DailyRate N) → List (String × RateDetail)
    unfolding get_currency_name_in_korean
    from_snapshots [] = []
    from_snapshots (r ∷ rs) =
        put r.currency_code
          (record {
            rate = round_4 r.rate;
            day_change = N.int 0;
            day_change_percent = N.int 0;
            timestamp = r.rate_date;
            name = get_currency_name_in_korean upper r.currency_code;
          })
          (from_snapshots rs)

  module _ (T : DailyTable N) where
    -- The records that `calculateDailyRates` makes of the API's answer.
    pub daily_records : ℕ → List (String × FluctuationRate N) → List (DailyRate N)
    daily_records start_date [] = []
    daily_records start_date ((code, data') ∷ rest) =
        record {
          base_currency = "KRW";
          currency_code = code;
          rate = data'.end_rate;
          rate_date = start_date;
        }
        ∷ daily_records start_date rest

    -- `calculateDailyRates`
    pub calculate_daily_rates : ChangeApi → ℕ → ℕ → T.Db → Result QueryError T.Db
    unfolding daily_records save_daily_rates
    calculate_daily_rates api start_date end_date db =
        elim (api start_date end_date "KRW" support_currency_list) [
          | none ↦ err QueryError.api_failed
          | some rates ↦ of_database (save_daily_rates N T (daily_records start_date rates) db)
        ]

    -- The snapshots of a day, one query for each currency.
    snapshots : String → ℕ → List String → T.Db → List (DailyRate N)
    unfolding find_daily_rates
    snapshots base day [] db = []
    snapshots base day (code ∷ codes) db =
        find_daily_rates N T base code day day db ++ snapshots base day codes db

    -- The snapshots of the last market day, made first where there are not enough.
    unfoldable pub ensure_snapshots :
        Dayjs → ChangeApi → String → ℕ → T.Db → Result QueryError (List (DailyRate N) × T.Db)
    unfolding snapshots calculate_daily_rates
    ensure_snapshots D api base day db =
        let found =
          filter (λ (r : DailyRate N). not (str_eq r.currency_code base))
            (snapshots base day support_currency_list db) in
        if length found == length support_currency_list - 1 then ok (found, db) else do
          later ← calculate_daily_rates api (get_yesterday D day) day db
          ok (snapshots base day support_currency_list later, later)

    -- The response that the snapshots give.
    unfoldable pub respond :
        (String → String)
        → List String
        → List (DailyRate N) × T.Db
        → Result QueryError (List (String × RateDetail) × T.Db)
    unfolding from_snapshots
    respond upper targets (found, db) = ok (
      from_snapshots upper
          (filter (λ (r : DailyRate N). any (str_eq r.currency_code) targets) found),
      db,
    )

    -- `getCurrencyExchangeRates`, whose last error no branch reaches
    unfoldable pub get_currency_exchange_rates :
        (C : Client)
        → Dayjs
        → (String → String)
        → (String → ℕ)
        → LatestApi
        → ChangeApi
        → String
        → List String
        → ℕ
        → C.Db
        → T.Db
        → Result QueryError (List (String × RateDetail) × T.Db)
    unfolding from_cache from_apis respond ensure_snapshots get_latest_rate_health_check
    get_currency_exchange_rates C D upper parse_date latest change base codes now redis db =
        let targets = target_codes base codes in
        if is_cache_hit now (get_latest_rate_health_check C parse_date "KRW" now redis)
        then ok (from_cache upper C (is_market_open now) targets redis, db)
        else if is_market_open now
        then elim (latest base) [
          | none ↦ err QueryError.api_failed
          | some (date, rates) ↦ elim (change (get_last_market_day D now) now base targets) [
            | none ↦ err QueryError.api_failed
            | some changes ↦
                from_apis upper date rates changes targets >>= (λ details. (ok (details, db)))
          ]
        ]
        else ensure_snapshots D change base (get_last_market_day D now) db >>= respond upper targets

    -- The rates that `getHistoricalRates` saves: one for each missing day.
    pub missing_records :
        Dayjs
        → String
        → String
        → List (String × List (String × Num))
        → List ℕ
        → Result QueryError (List (DailyRate N))
    missing_records D base code rates [] = ok []
    missing_records D base code rates (day ∷ days) =
        let rest = missing_records D base code rates days in
        elim (lookup (get_yyyymmdd D day) rates) [
          | none ↦ err rate_missing
          | some of_day ↦
              let rate = N.div (N.int 1) (or_nan (lookup code of_day)) in
              rest >>= (λ records.
                (ok (
                  record {
                    base_currency = base;
                    currency_code = code;
                    rate = rate;
                    rate_date = day;
                  }
                  ∷ records)))
        ]

    -- The days of the period that the history lacks.
    abbrev pub missing_dates : List (DailyRate N) → List ℕ → List ℕ
    missing_dates historical dates =
        filter (λ d. not (any (λ (r : DailyRate N). r.rate_date == d) historical)) dates

    -- `getHistoricalRates` from where the missing days are known.
    fill_history :
        Dayjs
        → TimeSeriesApi
        → String
        → String
        → ℕ
        → ℕ
        → List (DailyRate N)
        → List ℕ
        → T.Db
        → Result QueryError (List (DailyRate N) × T.Db)
    unfolding missing_records save_daily_rates find_daily_rates
    fill_history D api base code started_at ended_at historical [] db = ok (historical, db)
    fill_history D api base code started_at ended_at historical (day ∷ days) db =
        elim (api day (last_of day days) base (code ∷ [])) [
          | none ↦ err QueryError.api_failed
          | some rates ↦ do
            records ← missing_records D base code rates (day ∷ days)
            later ← of_database (save_daily_rates N T records db)
            ok (find_daily_rates N T base code started_at ended_at later, later)
        ]

    -- `getHistoricalRates`
    pub get_historical_rates :
        Dayjs
        → TimeSeriesApi
        → String
        → String
        → ℕ
        → ℕ
        → T.Db
        → Result QueryError (List (DailyRate N) × T.Db)
    unfolding fill_history find_daily_rates
    get_historical_rates D api base code started_at ended_at db =
        let historical = find_daily_rates N T base code started_at ended_at db in
        elim (get_dates_between D started_at ended_at) [
          | none ↦ err QueryError.fuel_empty
          | some dates ↦
              fill_history D api base code started_at ended_at historical
                (missing_dates historical dates) db
        ]
