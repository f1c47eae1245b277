-- ===== src/ExchangeRate/Queries/Repeats.antt =====
-- Daily rates that are calculated again.
use exchange_watch.Base.{
  ℕ, ◌≡◌, ◌⊎◌, subst, refl, sym, ◌∙◌, true, none, some, String, str_eq, eq_iff, List, [], ◌∷◌, any,
  All, ok, err, Bool-cases, inl, inr, arith,
}
use exchange_watch.Numbers.{Numbers}
use exchange_watch.Date.{start_of_day}
use exchange_watch.ExchangeRate.{FluctuationRate}
use exchange_watch.ExchangeRate.Constants.{support_currency_list}
use exchange_watch.ExchangeRate.Daily.{
  DailyRate, DailyTable, with_rows, fits, refused, is_char_3, save_daily_rates,
}
use exchange_watch.ExchangeRate.Daily.Duplicates.{has, written_first, with_rows-same, has-like}
use exchange_watch.ExchangeRate.Queries.{
  ChangeApi, QueryError, daily_records, calculate_daily_rates,
}

module _ (N : Numbers) where
  -- The second answer has rates of currencies of the first alone.
  abbrev pub Within : List (String × FluctuationRate N) → List (String × FluctuationRate N) → Type 0
  Within first second =
      All
        (λ (e : String × FluctuationRate N).
          any (λ (f : String × FluctuationRate N). str_eq f.0 e.0) first ≡ true)
        second

  -- The row that an entry of the API's answer becomes.
  abbrev pub row_of : ℕ → String × FluctuationRate N → DailyRate N
  row_of start e = record {
    base_currency = "KRW";
    currency_code = e.0;
    rate = e.1.end_rate;
    rate_date = start;
  }

  -- The columns can hold every row of an answer.
  abbrev pub AllFit : ℕ → List (String × FluctuationRate N) → Type 0
  AllFit start rates =
      All (λ (e : String × FluctuationRate N). fits N (row_of start e) ≡ true) rates

  -- A code of a row that fits has three characters.
  code_fits :
      (start : ℕ) (first : List (String × FluctuationRate N)) (code : String)
      → any (λ (f : String × FluctuationRate N). str_eq f.0 code) first ≡ true
      → AllFit start first
      → is_char_3 code ≡ true
  code_fits start [] code i a = cc
  code_fits start ((other, data') ∷ first) code i a = elim (Bool-cases (str_eq other code)) [
    | inl h ↦ subst (λ c. is_char_3 c ≡ true) ((eq_iff other code).0 h) (ground (arith, a.0))
    | inr h ↦ code_fits start first code (ground (arith, i, h)) a.1
  ]

  module _ (T : DailyTable N) where
    -- The columns can hold all the rows of a second answer, or refuse one.
    AllFit-or_refused :
        (start again : ℕ) (first second : List (String × FluctuationRate N))
        → Within first second
        → AllFit start first
        → AllFit again second ⊎ (any (refused N) (daily_records N T again second) ≡ true)
    unfolding daily_records
    AllFit-or_refused start again first [] w a = inl tt
    AllFit-or_refused start again first ((code, data') ∷ second) w a =
        elim (Bool-cases (N.storable data'.end_rate)) [
          | inr h ↦ inr (ground (arith, h))
          | inl h ↦ elim (AllFit-or_refused start again first second w.1 a) [
            | inl all ↦ inl (ground (arith, h, code_fits start first code w.0 a), all)
            | inr some_refused ↦ inr (ground (arith, some_refused))
          ]
        ]

    found_again :
        (start : ℕ) (first : List (String × FluctuationRate N)) (rows : List (DailyRate N))
        (x : DailyRate N)
        → any (λ (f : String × FluctuationRate N). str_eq f.0 x.currency_code) first ≡ true
        → x.base_currency ≡ "KRW"
        → start_of_day x.rate_date ≡ start_of_day start
        → has N (with_rows N (daily_records N T start first) rows) x ≡ true
    unfolding daily_records
    found_again start [] rows x i b d = cc
    found_again start ((code, data') ∷ first) rows x i b d =
        let y : DailyRate N = record {
          base_currency = "KRW";
          currency_code = code;
          rate = data'.end_rate;
          rate_date = start;
        } in
        elim (Bool-cases (str_eq code x.currency_code)) [
          | inl h ↦
              has-like N (with_rows N (y ∷ daily_records N T start first) rows) x y
                (sym ((eq_iff code x.currency_code).0 h)) b d
              ∙ written_first N y (daily_records N T start first) rows
          | inr h ↦ found_again start first _ x (ground (arith, i, h)) b d
        ]

    all_again :
        (start again : ℕ) (first second : List (String × FluctuationRate N))
        (rows : List (DailyRate N))
        → start_of_day again ≡ start_of_day start
        → Within first second
        → All
            (λ x. has N (with_rows N (daily_records N T start first) rows) x ≡ true)
            (daily_records N T again second)
    unfolding daily_records
    all_again start again first [] rows d w = tt
    all_again start again first ((code, data') ∷ second) rows d w = (
      found_again start first rows
          (record {
            base_currency = "KRW";
            currency_code = code;
            rate = data'.end_rate;
            rate_date = again;
          })
          w.0 refl d,
      all_again start again first second rows d w.1,
    )

    pub calculate-fails :
        (api : ChangeApi N) (start : ℕ) (db : T.Db)
        → api start start "KRW" support_currency_list ≡ none
        → calculate_daily_rates N T api start start db ≡ err QueryError.api_failed
    unfolding calculate_daily_rates
    calculate-fails api start db h = ground (arith, h)

    pub records_fit :
        (start : ℕ) (rates : List (String × FluctuationRate N))
        → AllFit start rates
        → All (λ x. fits N x ≡ true) (daily_records N T start rates)
    unfolding daily_records
    records_fit start [] a = tt
    records_fit start ((code, data') ∷ rates) a = (a.0, records_fit start rates a.1)

    -- What is calculated is in the table from then on.
    pub all_saved :
        (start : ℕ) (rates : List (String × FluctuationRate N)) (rows : List (DailyRate N))
        → All
            (λ e. has N (with_rows N (daily_records N T start rates) rows) (row_of start e) ≡ true)
            rates
    unfolding daily_records
    all_saved start [] rows = tt
    all_saved start ((code, data') ∷ rates) rows = (
      written_first N (row_of start (code, data')) (daily_records N T start rates) rows,
      all_saved start rates _,
    )

    calculate-throws :
        (api : ChangeApi N) (start end : ℕ) (rates : List (String × FluctuationRate N)) (db : T.Db)
        → api start end "KRW" support_currency_list ≡ some rates
        → T.create_many (daily_records N T start rates) db ≡ none
        → calculate_daily_rates N T api start end db ≡ err QueryError.database_failed
    unfolding calculate_daily_rates save_daily_rates
    calculate-throws api start end rates db e f = ground (arith, e, f)

    -- Rates that the columns can hold are saved.
    pub calculate-saves :
        (api : ChangeApi N) (start end : ℕ) (rates : List (String × FluctuationRate N)) (db : T.Db)
        → api start end "KRW" support_currency_list ≡ some rates
        → AllFit start rates
        → (later : T.Db) × (calculate_daily_rates N T api start end db ≡ ok later)
          × (T.rows later ≡ with_rows N (daily_records N T start rates) (T.rows db))
    unfolding calculate_daily_rates save_daily_rates
    calculate-saves api start end rates db e f =
        let (later, w, rows) =
          T.create_many_fits (daily_records N T start rates) db (records_fit start rates f) in
        (later, ground (arith, e, w), rows)

    -- Rates that are calculated twice for one day: the rows of the first time stay, and the second time adds none, or fails where
    -- the columns cannot hold its rates.
    pub calculate_again :
        (api : ChangeApi N) (start again : ℕ) (first second : List (String × FluctuationRate N))
        (db : T.Db)
        → start_of_day again ≡ start_of_day start
        → api start start "KRW" support_currency_list ≡ some first
        → api again again "KRW" support_currency_list ≡ some second
        → AllFit start first
        → Within first second
        → (later : T.Db) × (calculate_daily_rates N T api start start db ≡ ok later)
          × ((calculate_daily_rates N T api again again later ≡ err QueryError.database_failed)
              ⊎ ((twice : T.Db) × (calculate_daily_rates N T api again again later ≡ ok twice)
                  × (T.rows twice ≡ T.rows later)))
    calculate_again api start again first second db d e f a w =
        let (later, saved, r) = calculate-saves api start start first db e a in
        (
          later,
          saved,
          elim (AllFit-or_refused start again first second w a) [
            | inr h ↦ inl (
                calculate-throws api again again second later f
                  (T.create_many_refused (daily_records N T again second) later h))
            | inl all ↦
                let (twice, b, s) = calculate-saves api again again second later f all in
                inr (
                  twice,
                  b,
                  s
                      ∙ rw r (
                          with_rows-same N (daily_records N T again second) _
                            (all_again start again first second (T.rows db) d w)),
                )
          ],
        )
