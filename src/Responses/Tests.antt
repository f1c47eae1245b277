-- ===== src/Responses/Tests.antt =====
-- An instance of the theorem on the statuses: a request whose period ends in the future.
use exchange_watch.Base.{◌*◌, ◌≡◌, ◌⊎◌, ◌==◌, not, some, String, List, [], ◌∷◌}
use exchange_watch.Numbers.Unary.{unary_numbers}
use exchange_watch.Date.{ms_per_day}
use exchange_watch.Date.Tests.{unary_dayjs}
use exchange_watch.Requests.{Value}
use exchange_watch.Requests.Latin.{to_upper_case}
use exchange_watch.ExchangeRate.Daily.Memory.{memory}
use exchange_watch.ExchangeRate.Queries.{TimeSeriesApi}
use exchange_watch.ExchangeRate.Controller.{HistoryQuery, RateHistory, accepts_history}
use exchange_watch.Responses.{Answer}
use exchange_watch.Responses.Status.{sent, status_of_body, history_answer, history_answer-sent}

abbrev two_codes : List String
two_codes = "KRW" ∷ "USD" ∷ []

abbrev no_series : TimeSeriesApi unary_numbers
no_series s e base codes = some []

abbrev refusal : Value
refusal = Value.text "endedAt cannot be in the future"

abbrev future : HistoryQuery
future = record {
  base_currency = Value.text "KRW";
  currency_code = Value.text "USD";
  started_at = some (2 * ms_per_day);
  ended_at = some (4 * ms_per_day);
}

abbrev answered : Answer (
    String
    × String
    × List (RateHistory to_upper_case two_codes unary_numbers (memory unary_numbers) unary_dayjs)
    × (memory unary_numbers).Db)
answered =
    history_answer to_upper_case two_codes unary_numbers (memory unary_numbers) unary_dayjs
      no_series refusal "" "/api/exchange-rates/history" future (3 * ms_per_day) []

history_answer-sent_example :
    (status_of_body answered ≡ sent answered)
    × ((sent answered ≡ 400) ⊎ (sent answered ≡ 200) ⊎ (sent answered ≡ 500))
    × ((sent answered == 400)
        ≡ not (accepts_history to_upper_case two_codes unary_dayjs (3 * ms_per_day) future))
history_answer-sent_example =
    history_answer-sent to_upper_case two_codes unary_numbers (memory unary_numbers) unary_dayjs
      no_series refusal "" "/api/exchange-rates/history" future (3 * ms_per_day) []
