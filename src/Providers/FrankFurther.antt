-- ===== src/Providers/FrankFurther.antt =====
-- frankfurther/frankfurther.service.ts
use exchange_watch.Base.{
  ℕ, Option, none, some, List, [], ◌∷◌, String, Result, ok, ◌>>=◌, if◌then◌else◌,
}
use exchange_watch.Numbers.{Numbers, is_truthy}
use exchange_watch.Strings.{join}
use exchange_watch.Providers.{ProviderError, awaited, RatesResponse, TimeSeriesResponse}

-- The query of a URL: the symbols begin with `&` also where there is no base before them.
base_query : Option String → String
base_query none = ""
base_query (some base) = if is_truthy (some base) then join "" ("?base=" ∷ base ∷ []) else ""

symbols_query : List String → String
symbols_query [] = ""
symbols_query (code ∷ codes) = join "" ("&symbols=" ∷ join "," (code ∷ codes) ∷ [])

module _ (N : Numbers) (base_url : String) (iso_day : ℕ → String) where
  -- `getLatestRates`
  pub get_latest_rates :
      (String → Option (RatesResponse N))
      → Option String
      → List String
      → Result ProviderError (RatesResponse N)
  unfolding base_query symbols_query
  get_latest_rates get base codes = do
    data' ←
        awaited (get (join "" (base_url ∷ "/latest" ∷ base_query base ∷ symbols_query codes ∷ [])))
    ok (record { base_currency = data'.base_currency; date = data'.date; rates = data'.rates })

  -- `getTimeSeriesData`
  pub get_time_series_data :
      (String → Option (TimeSeriesResponse N))
      → ℕ
      → ℕ
      → Option String
      → List String
      → Result ProviderError (TimeSeriesResponse N)
  unfolding base_query symbols_query
  get_time_series_data get start_date end_date base codes = do
    data' ← awaited (
        get (
          join "" (
            base_url
            ∷ "/"
            ∷ iso_day start_date
            ∷ ".."
            ∷ iso_day end_date
            ∷ base_query base
            ∷ symbols_query codes
            ∷ [])))
    ok (record {
      base_currency = data'.base_currency;
      start_date = data'.start_date;
      end_date = data'.end_date;
      rates = data'.rates;
    })
