-- ===== src/Agents.antt =====
-- common/agents/functions/exchange-rate.function.ts: what the language model's agent may call to explain a rate.
pub mod Summary
mod Tests
use exchange_watch.Base.{ℕ, Option, none, some, String, List, [], ◌∷◌, map, Result, ok, err, ◌>>=◌}
use exchange_watch.Numbers.{Numbers}
use exchange_watch.Date.{Dayjs, ManipulateType, sub_date}
use exchange_watch.Redis.Cache.{Client}
use exchange_watch.ExchangeRate.Constants.{lookup}
use exchange_watch.ExchangeRate.Daily.{DailyRate, DailyTable}
use exchange_watch.ExchangeRate.Queries.{
  QueryError, RateDetail, LatestApi, ChangeApi, TimeSeriesApi, get_currency_exchange_rates,
  get_historical_rates,
}

module _ (N : Numbers) where
  open N use {Num}

  -- `RateInsightSummaryInput` and `RateInsightSummaryOutput`, with an item of `historicalData`
  pub record SummaryInput : Type 0 where
    pub base_currency : String
    pub currency_code : String
    pub days : ℕ

  pub record HistoricalItem : Type 0 where
    pub rate : Num
    pub rate_date : ℕ

  pub record SummaryOutput : Type 0 where
    pub base_currency : String
    pub currency_code : String
    pub current_rate : Num
    pub historical_data : List HistoricalItem

  -- `currentData[input.currencyCode].rate`
  abbrev rate_of : Option (RateDetail N) → Result QueryError Num
  rate_of none = err QueryError.rate_missing
  rate_of (some d) = ok d.rate

  abbrev pub items_of : List (DailyRate N) → List HistoricalItem
  items_of rates =
      map (λ (e : DailyRate N). record { rate = e.rate; rate_date = e.rate_date }) rates

  module _ (T : DailyTable N) (C : Client) (D : Dayjs) where
    -- `summarizePercentileInsight`, at the times of the current rates, of the start and of the end; an error is logged and thrown
    -- again.
    unfoldable pub summarize_percentile_insight :
        (String → String)
        → (String → ℕ)
        → LatestApi N
        → ChangeApi N
        → TimeSeriesApi N
        → SummaryInput
        → ℕ
        → ℕ
        → ℕ
        → C.Db
        → T.Db
        → Result QueryError (SummaryOutput × T.Db)
    unfolding sub_date
    summarize_percentile_insight to_upper_case parse_date latest change series input now start_now
          end_now redis db =
        do
          (current_data, saved) ←
              get_currency_exchange_rates N T C D to_upper_case parse_date latest change
                input.base_currency (input.currency_code ∷ []) now redis db
          current_rate ← rate_of (lookup input.currency_code current_data)
          let start_date = sub_date D input.days ManipulateType.day start_now
          (historical_data, later) ←
              get_historical_rates N T D series input.base_currency input.currency_code start_date
                end_now saved
          ok (
            record {
              base_currency = input.base_currency;
              currency_code = input.currency_code;
              current_rate = current_rate;
              historical_data = items_of historical_data;
            },
            later,
          )
