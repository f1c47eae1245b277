-- ===== src/Providers/CurrencyLayer.antt =====
-- currencylayer/currencylayer.service.ts
pub mod Parsing
pub mod StandIn
pub mod Start
mod Tests
use exchange_watch.Base.{
  ℕ, ◌*◌, Bool, true, false, not, Option, none, some, List, [], ◌∷◌, String, str_eq, map, filter,
  Result, ok, err, ◌>>=◌, if◌then◌else◌,
}
use exchange_watch.Numbers.{Numbers}
use exchange_watch.Strings.{remove_first, join, from_entries}
use exchange_watch.ExchangeRate.Constants.{support_currency_list}
use exchange_watch.ExchangeRate.{FluctuationRate}
use exchange_watch.Providers.{
  ProviderError, awaited, accepted, RatesResponse, TimeSeriesResponse, FluctuationResponse,
  RawFluctuation,
}

module _ (N : Numbers) where
  open N use {Num}

  -- interfaces/currencylayer.interface.ts; the answer says in `success` whether it has the other fields
  pub record RealTimeRates : Type 0 where
    pub success : Bool
    pub timestamp : ℕ
    pub source : String
    pub quotes : List (String × Num)

  pub record HistoricalRates : Type 0 where
    pub success : Bool
    pub date : ℕ
    pub source : String
    pub quotes : List (String × Num)

  pub record TimeFrameRates : Type 0 where
    pub success : Bool
    pub start_date : ℕ
    pub end_date : ℕ
    pub source : String
    pub quotes : List (String × List (String × Num))

  pub record ChangeRates : Type 0 where
    pub success : Bool
    pub start_date : ℕ
    pub end_date : ℕ
    pub source : String
    pub quotes : List (String × RawFluctuation N)

  -- `parseRealTimeQuotes`
  unfoldable pub parse_real_time_quotes : String → List (String × Num) → List (String × Num)
  parse_real_time_quotes source quotes =
      from_entries (map (λ (q : String × Num). (remove_first source (q.0), q.1)) quotes)

  -- `info.change || info.end_rate - info.start_rate`
  abbrev pub fluctuation_of : RawFluctuation N → FluctuationRate N
  fluctuation_of info = record {
    start_rate = info.start_rate;
    end_rate = info.end_rate;
    change = if N.truthy info.change then info.change else N.sub info.end_rate info.start_rate;
    change_pct = info.change_pct;
  }

  -- `parseFluctuationQuotes`
  unfoldable pub parse_fluctuation_quotes :
      String → List (String × RawFluctuation N) → List (String × FluctuationRate N)
  parse_fluctuation_quotes source quotes = from_entries (
      map (λ (q : String × RawFluctuation N). (remove_first source (q.0), fluctuation_of (q.1)))
        quotes)

  -- `parseTimeSeriesQuotes`
  unfoldable pub parse_time_series_quotes :
      String → List (String × List (String × Num)) → List (String × List (String × Num))
  unfolding parse_real_time_quotes
  parse_time_series_quotes source quotes = from_entries (
      map (λ (q : String × List (String × Num)). (q.0, parse_real_time_quotes source (q.1))) quotes)

  -- `api_url` and `api_key` are of the configuration, and `iso_day` is `date.toISOString().split('T')[0]`.
  module _ (api_url api_key : String) (iso_day : ℕ → String) where
    url_of : String → String → List String → String
    url_of path source currencies = join "" (
        api_url
        ∷ path
        ∷ "?access_key="
        ∷ api_key
        ∷ source
        ∷ "&currencies="
        ∷ join "," currencies
        ∷ [])

    abbrev listed_or_all : List String → List String
    listed_or_all [] = support_currency_list
    listed_or_all (code ∷ codes) = code ∷ codes

    -- `getLatestRates`
    pub get_latest_rates :
        (String → Option RealTimeRates)
        → String
        → List String
        → Result ProviderError (RatesResponse N)
    unfolding url_of
    get_latest_rates get base codes =
        let currencies = listed_or_all codes in
        do
          data' ← awaited (get (url_of "/live" (join "" ("&source=" ∷ base ∷ [])) currencies))
          accepted data'.success (record {
            base_currency = data'.source;
            date = data'.timestamp * 1000;
            rates = parse_real_time_quotes data'.source data'.quotes;
          })

    -- `getHistoricalRates`
    pub get_historical_rates :
        (String → Option HistoricalRates)
        → ℕ
        → String
        → List String
        → Result ProviderError (RatesResponse N)
    unfolding url_of
    get_historical_rates get date base codes = do
      data' ← awaited (
          get (
            url_of "/historical" (join "" ("&date=" ∷ iso_day date ∷ "&source=" ∷ base ∷ []))
              codes))
      accepted data'.success (record {
        base_currency = data'.source;
        date = data'.date;
        rates = parse_real_time_quotes data'.source data'.quotes;
      })

    -- A URL with a period at its end.
    period_url : String → ℕ → ℕ → String → List String → String
    unfolding url_of
    period_url path start_date end_date base currencies = join "" (
        url_of path (join "" ("&source=" ∷ base ∷ [])) currencies
        ∷ "&start_date="
        ∷ iso_day start_date
        ∷ "&end_date="
        ∷ iso_day end_date
        ∷ [])

    -- The URL of `getFluctuationData`
    unfoldable pub change_url : ℕ → ℕ → String → List String → String
    unfolding period_url
    change_url start_date end_date base codes =
        period_url "/change" start_date end_date base
          (filter (λ code. not (str_eq code base)) codes)

    -- `getFluctuationData`
    unfoldable pub get_fluctuation_data :
        (String → Option ChangeRates)
        → ℕ
        → ℕ
        → String
        → List String
        → Result ProviderError (FluctuationResponse N)
    unfolding change_url
    get_fluctuation_data get start_date end_date base codes = do
      data' ← awaited (get (change_url start_date end_date base codes))
      accepted data'.success (record {
        base_currency = data'.source;
        start_date = data'.start_date;
        end_date = data'.end_date;
        rates = parse_fluctuation_quotes data'.source data'.quotes;
      })

    -- `getTimeSeriesData`
    unfoldable pub get_time_series_data :
        (String → Option TimeFrameRates)
        → ℕ
        → ℕ
        → String
        → List String
        → Result ProviderError (TimeSeriesResponse N)
    unfolding period_url
    get_time_series_data get start_date end_date base codes = do
      data' ← awaited (get (period_url "/timeframe" start_date end_date base codes))
      accepted data'.success (record {
        base_currency = data'.source;
        start_date = data'.start_date;
        end_date = data'.end_date;
        rates = parse_time_series_quotes data'.source data'.quotes;
      })
