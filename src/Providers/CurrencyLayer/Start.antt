-- ===== src/Providers/CurrencyLayer/Start.antt =====
-- FLUCTUATION_RATE_API of external.module.ts: the initialisation of the latest rates with CurrencyLayer's answers.
use exchange_watch.Base.{
  ℕ, ◌≡◌, refl, ap, ◌∙◌, true, Option, none, some, is_some, List, [], ◌∷◌, String, ok, err, All,
}
use exchange_watch.Numbers.{Numbers}
use exchange_watch.Strings.{lookup}
use exchange_watch.Strings.Laws.{DistinctKeys}
use exchange_watch.Date.{Dayjs, get_last_market_day}
use exchange_watch.Redis.Cache.{Client}
use exchange_watch.ExchangeRate.Latest.{
  FluctuationApi, check_missing_currencies, initialize_all_currency_data, target_currencies,
}
use exchange_watch.ExchangeRate.Latest.Start.{initialize_completes}
use exchange_watch.Providers.{RawFluctuation}
use exchange_watch.Providers.CurrencyLayer.{
  parse_fluctuation_quotes, fluctuation_of, ChangeRates, change_url, get_fluctuation_data,
}
use exchange_watch.Providers.CurrencyLayer.Parsing.{
  quoted, with_values, lookup-values, parse_fluctuation_quotes-quoted,
}

module _ (N : Numbers) (api_url api_key : String) (iso_day : ℕ → String)
    (get : String → Option (ChangeRates N)) where
  -- The rates that the initialisation takes from the answer.
  abbrev pub fluctuation_api : FluctuationApi N
  fluctuation_api start_date end_date base codes =
      elim (get_fluctuation_data N api_url api_key iso_day get start_date end_date base codes) [
        | err e ↦ none
        | ok r ↦ some r.rates
      ]

  fluctuation_api-answer :
      (start_date end_date : ℕ) (base : String) (codes : List String) (answer : ChangeRates N)
      → get (change_url N api_url api_key iso_day start_date end_date base codes) ≡ some answer
      → answer.success ≡ true
      → fluctuation_api start_date end_date base codes
        ≡ some (parse_fluctuation_quotes N answer.source answer.quotes)
  unfolding get_fluctuation_data
  fluctuation_api-answer start_date end_date base codes answer g s =
      rw (g, fluctuation_api, get_fluctuation_data, s) refl

  values_found :
      (codes : List String) (rates : List (String × RawFluctuation N))
      → All (λ c. is_some (lookup c rates) ≡ true) codes
      → All (λ c. is_some (lookup c (with_values (fluctuation_of N) rates)) ≡ true) codes
  values_found [] rates a = tt
  values_found (c ∷ codes) rates a =
      (lookup-values (fluctuation_of N) c rates ∙ a.0, values_found codes rates a.1)

  module _ (C : Client) (D : Dayjs) where
    -- Where CurrencyLayer's answer to the request for the missing currencies is a success and quotes each of them, with no
    -- currency quoted twice, the initialisation succeeds, and afterwards no supported currency but the base is missing.
    pub currency_layer_initializes :
        (now : ℕ) (db : C.Db) (answer : ChangeRates N) (rates : List (String × RawFluctuation N))
        → get (
            change_url N api_url api_key iso_day
              (get_last_market_day D now)
              now
              "KRW"
              (check_missing_currencies N C target_currencies db))
          ≡ some answer
        → answer.success ≡ true
        → answer.quotes ≡ quoted answer.source rates
        → DistinctKeys rates
        → All
            (λ c. is_some (lookup c rates) ≡ true)
            (check_missing_currencies N C target_currencies db)
        → (later : C.Db) × (initialize_all_currency_data N C D fluctuation_api now db ≡ ok later)
          × (check_missing_currencies N C target_currencies later ≡ [])
    currency_layer_initializes now db answer rates g s q d a =
        let missing = check_missing_currencies N C target_currencies db in
        initialize_completes N C D fluctuation_api now db (with_values (fluctuation_of N) rates)
          (fluctuation_api-answer (get_last_market_day D now) now "KRW" missing answer g s
            ∙ ap some (
                ap (parse_fluctuation_quotes N answer.source) q
                ∙ parse_fluctuation_quotes-quoted N answer.source rates d))
          (values_found missing rates a)
