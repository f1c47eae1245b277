-- ===== src/Agents/Tests.antt =====
-- An instance of the theorem on the summary: a Sunday, its rate in Redis, the day before in the table, and its day with the API.
use exchange_watch.Base.{ℕ, ◌*◌, some, List, [], ◌∷◌}
use exchange_watch.Numbers.Unary.{unary_numbers}
use exchange_watch.Date.{ms_per_day}
use exchange_watch.Date.Tests.{unary_dayjs}
use exchange_watch.ExchangeRate.Daily.{DailyRate}
use exchange_watch.ExchangeRate.Queries.{TimeSeriesApi}

abbrev row : ℕ → DailyRate unary_numbers
row day = record {
  base_currency = "KRW";
  currency_code = "USD";
  rate = 7;
  rate_date = day * ms_per_day;
}

abbrev rows : List (DailyRate unary_numbers)
rows = row 20211 ∷ []

abbrev series : TimeSeriesApi unary_numbers
series s e base codes = some ((unary_dayjs.format s, ("USD", 1) ∷ []) ∷ [])
