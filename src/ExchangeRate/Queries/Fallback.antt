-- ===== src/ExchangeRate/Queries/Fallback.antt =====
-- The snapshots that are made while the market is closed: they carry the day before the day that is looked for.
use exchange_watch.Base.{
  ℕ, ◌≡◌, ◌≢◌, refl, subst, sym, All, ◌∙◌, Bool, true, false, some, String, List, [], ◌∷◌, filter,
  ok, ◌==◌, any, arith, any-append,
}
use exchange_watch.Numbers.{Numbers}
use exchange_watch.Date.{start_of_day, Dayjs, is_market_open, get_last_market_day, get_yesterday}
use exchange_watch.Redis.Cache.{Client}
use exchange_watch.ExchangeRate.Constants.{support_currency_list}
use exchange_watch.ExchangeRate.Daily.{
  DailyRate, DailyTable, dated, same_day_pair, find_daily_rates, with_rows, in_range,
}
use exchange_watch.ExchangeRate.{FluctuationRate, get_latest_rate_health_check}
use exchange_watch.ExchangeRate.Queries.{
  LatestApi, ChangeApi, from_snapshots, ensure_snapshots, snapshots, daily_records, is_cache_hit,
  get_currency_exchange_rates, respond,
}
use exchange_watch.ExchangeRate.Queries.Repeats.{AllFit, all_saved, calculate-saves}

pub nil_of_any : {A : Type 0} (xs : List A) → any (λ _. true) xs ≡ false → xs ≡ []
nil_of_any [] e = refl
nil_of_any (x ∷ xs) e = cc

module _ (N : Numbers) where
  abbrev pub of_day : ℕ → DailyRate N → Bool
  of_day day r = start_of_day r.rate_date == start_of_day day

  none_in_range :
      (base code : String) (day : ℕ) (rows : List (DailyRate N))
      → any (of_day day) rows ≡ false
      → any (λ _. true) (filter (in_range N base code day day) rows) ≡ false
  none_in_range base code day [] e = refl
  none_in_range base code day (r ∷ rs) e = ground (arith, none_in_range base code day rs)

  any-with_rows :
      (day : ℕ) (input rows : List (DailyRate N))
      → any (of_day day) input ≡ false
      → any (of_day day) rows ≡ false
      → any (of_day day) (with_rows N input rows) ≡ false
  any-with_rows day [] rows i e = e
  any-with_rows day (x ∷ xs) rows i e =
      any-with_rows day xs _ (ground (arith, i))
        (ground (arith, i, e, any-append (of_day day) rows (dated N x ∷ [])))

  -- The table has a row of each currency of an answer, of the base KRW and this day.
  abbrev pub AllSaved : ℕ → List (String × FluctuationRate N) → List (DailyRate N) → Type 0
  AllSaved day rates rows =
      All
        (λ (e : String × FluctuationRate N).
          any
            (same_day_pair N (record {
              base_currency = "KRW";
              currency_code = e.0;
              rate = N.decimal e.1.end_rate;
              rate_date = start_of_day day;
            }))
            rows
          ≡ true)
        rates

  module _ (T : DailyTable N) where
    none_found :
        (base : String) (day : ℕ) (codes : List String) (db : T.Db)
        → any (of_day day) (T.rows db) ≡ false
        → snapshots N T base day codes db ≡ []
    unfolding snapshots find_daily_rates
    none_found base day [] db e = refl
    none_found base day (code ∷ codes) db e =
        rw
          (nil_of_any _ (
            T.find_asc_any (in_range N base code day day) (λ _. true) db
            ∙ none_in_range base code day (T.rows db) e))
          (none_found base day codes db e)

    of_other_day :
        (start day : ℕ) (rates : List (String × FluctuationRate N))
        → start_of_day start ≢ start_of_day day
        → any (of_day day) (daily_records N T start rates) ≡ false
    unfolding daily_records
    of_other_day start day [] ne = refl
    of_other_day start day ((code, r) ∷ rest) ne =
        ground (arith, of_other_day start day rest ne, ne)

    still_none :
        (D : Dayjs) (api : ChangeApi N) (base : String) (day : ℕ) (db : T.Db)
        (rates : List (String × FluctuationRate N))
        → start_of_day (get_yesterday D day) ≢ start_of_day day
        → any (of_day day) (T.rows db) ≡ false
        → api (get_yesterday D day) day "KRW" support_currency_list ≡ some rates
        → AllFit N (get_yesterday D day) rates
        → (later : T.Db) × (ensure_snapshots N T D api base day db ≡ ok ([], later))
          × AllSaved (get_yesterday D day) rates (T.rows later)
    unfolding ensure_snapshots
    still_none D api base day db rates ne e a fit =
        let records = daily_records N T (get_yesterday D day) rates in
        let (later, saved, rows) =
          calculate-saves N T api (get_yesterday D day) day rates db a fit in
        let none_later : any (of_day day) (T.rows later) ≡ false = rw rows (
          any-with_rows day records (T.rows db) (of_other_day (get_yesterday D day) day rates ne)
            e) in
        (
          later,
          ground (
            arith,
            none_found base day support_currency_list db e,
            none_found base day support_currency_list later none_later,
            saved,
          ),
          subst (AllSaved (get_yesterday D day) rates) (sym rows)
              (all_saved N T (get_yesterday D day) rates (T.rows db)),
        )

    -- A bug: while the market is closed, the cache is old and there is no snapshot of the last market day, the service asks the
    -- API, which answers with rates that the table's columns can hold, and saves a snapshot of each currency of the answer, of the base KRW and the day
    -- before the last market day. It looks again under the last market day, finds none, and answers with no rates at all.
    pub fallback_finds_nothing :
        (C : Client) (D : Dayjs) (upper : String → String) (parse_date : String → ℕ)
        (latest : LatestApi N) (api : ChangeApi N) (base : String) (codes : List String) (now : ℕ)
        (redis : C.Db) (db : T.Db) (rates : List (String × FluctuationRate N))
        → is_market_open now ≡ false
        → is_cache_hit now (get_latest_rate_health_check C parse_date "KRW" now redis) ≡ false
        → start_of_day (get_yesterday D (get_last_market_day D now))
          ≢ start_of_day (get_last_market_day D now)
        → any (of_day (get_last_market_day D now)) (T.rows db) ≡ false
        → api
            (get_yesterday D (get_last_market_day D now))
            (get_last_market_day D now)
            "KRW"
            support_currency_list
          ≡ some rates
        → AllFit N (get_yesterday D (get_last_market_day D now)) rates
        → (later : T.Db) × (get_currency_exchange_rates N T C D upper parse_date latest api base
              codes now redis db
            ≡ ok ([], later))
          × AllSaved (get_yesterday D (get_last_market_day D now)) rates (T.rows later)
    unfolding get_currency_exchange_rates respond from_snapshots
    fallback_finds_nothing C D upper parse_date latest api base codes now redis db rates closed miss
          ne e a fit =
        let (later, f, saved) =
          still_none D api base (get_last_market_day D now) db rates ne e a fit in
        (later, ground (arith, closed, miss, f), saved)
