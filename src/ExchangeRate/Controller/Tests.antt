-- ===== src/ExchangeRate/Controller/Tests.antt =====
-- Instances of the theorems on the requests, over the table of daily rates in memory and the Latin capitals.
use exchange_watch.Base.{
  ℕ, ◌+◌, ◌*◌, ◌≡◌, refl, some, true, false, ◌&&◌, String, List, [], ◌∷◌, ok, err, any, ◌==◌,
}
use exchange_watch.Numbers.Unary.{unary_numbers}
use exchange_watch.Date.{ms_per_day}
use exchange_watch.Date.Between.{days_from, day_count}
use exchange_watch.Date.Tests.{unary, unary_dayjs, unary_dayjs-InUtc}
use exchange_watch.Strings.{split}
use exchange_watch.Strings.Laws.{lacks}
use exchange_watch.Requests.{
  Value, is_before_than_constraint, is_after_constraint, utf16_length, matches_krw, every, is_code,
  remove_spaces,
}
use exchange_watch.Requests.Latin.{to_upper_case, to_upper_case_idem, to_upper_case-remove_spaces}
use exchange_watch.ExchangeRate.Daily.{DailyRate, find_daily_rates}
use exchange_watch.ExchangeRate.Daily.Memory.{memory}
use exchange_watch.ExchangeRate.Queries.{
  TimeSeriesApi, QueryError, missing_dates, get_historical_rates,
}
use exchange_watch.ExchangeRate.Queries.Rates.{of_rate, get_historical_rates-rate}
use exchange_watch.ExchangeRate.Controller.{
  RequestError, transform_codes, accepts_rates, accepts_history, get_current_exchange_histories,
}
use exchange_watch.ExchangeRate.Controller.Codes.{Capitals, is_iso, accepts_rates-is_iso}
use exchange_watch.ExchangeRate.Controller.BothCodes.{
  both_codes, get_current_exchange_histories-both_codes,
}

abbrev iso_codes : List String
iso_codes = "KRW" ∷ "USD" ∷ "EUR" ∷ []

abbrev start : ℕ
start = 2 * ms_per_day + 18 * 3600000

abbrev end : ℕ
end = 4 * ms_per_day + 20 * 3600000

abbrev rows : List (DailyRate unary_numbers)
rows =
    record { base_currency = "KRW"; currency_code = "USD"; rate = 7; rate_date = 3 * ms_per_day }
    ∷ []

abbrev api : TimeSeriesApi unary_numbers
api s e base codes = some (("xx", ("USD", 1) ∷ []) ∷ ("xxxx", ("USD", 1) ∷ []) ∷ [])

capitals : Capitals to_upper_case
capitals = record { idem = to_upper_case_idem; clean = to_upper_case-remove_spaces }

accepts_rates-is_iso_example :
    accepts_rates to_upper_case iso_codes (Value.text "KRW") ("USD" ∷ "EUR" ∷ []) ≡ (
      matches_krw (Value.text "KRW") && every (is_iso to_upper_case iso_codes) ("USD" ∷ "EUR" ∷ []))
unfolding to_upper_case remove_spaces transform_codes split
accepts_rates-is_iso_example =
    accepts_rates-is_iso to_upper_case iso_codes capitals (Value.text "KRW")
      (Value.text "usd, e ur") ("USD" ∷ "EUR" ∷ []) refl

abbrev morning : ℕ
morning = 2 * ms_per_day + 3600000

abbrev noon : ℕ
noon = 2 * ms_per_day + 12 * 3600000

get_current_exchange_histories-both_codes_example :
    (is_code to_upper_case iso_codes
        (remove_spaces (both_codes to_upper_case iso_codes "USD" "EUR"))
      ≡ false)
    × (accepts_history to_upper_case iso_codes unary_dayjs (5 * ms_per_day) (record {
      base_currency = Value.text "KRW";
      currency_code = Value.text (both_codes to_upper_case iso_codes "USD" "EUR");
      started_at = some morning;
      ended_at = some noon;
    })
        ≡ true)
    × (x : QueryError) × (get_current_exchange_histories to_upper_case iso_codes unary_numbers
          (memory unary_numbers)
          unary_dayjs
          api
          (record {
            base_currency = Value.text "KRW";
            currency_code = Value.text (both_codes to_upper_case iso_codes "USD" "EUR");
            started_at = some morning;
            ended_at = some noon;
          })
          (5 * ms_per_day)
          rows
        ≡ err (RequestError.failed x))
unfolding lacks to_upper_case remove_spaces utf16_length is_before_than_constraint
    is_after_constraint
get_current_exchange_histories-both_codes_example =
    get_current_exchange_histories-both_codes to_upper_case iso_codes unary_numbers
      (memory unary_numbers) unary_dayjs unary_dayjs-InUtc api (5 * ms_per_day) morning noon "USD"
      "EUR" rows refl refl refl refl refl refl refl

-- The days before and after the one that the table has.
lacking :
    missing_dates unary_numbers
      (memory unary_numbers)
      (find_daily_rates unary_numbers (memory unary_numbers) "KRW" "USD" start end rows)
      (days_from 2 (day_count start end))
    ≡ 2 * ms_per_day ∷ 4 * ms_per_day ∷ []
unfolding find_daily_rates days_from
lacking = refl

get_historical_rates-rate_example :
    (records : List (DailyRate unary_numbers)) × (later : List (DailyRate unary_numbers))
    × (get_historical_rates unary_numbers
          (memory unary_numbers)
          unary_dayjs
          api
          "KRW"
          "USD"
          start
          end
          rows
        ≡ ok (records, later))
    × (any (of_rate unary_numbers (λ n. n == 1) (4 * ms_per_day)) records ≡ true)
unfolding unary
get_historical_rates-rate_example =
    get_historical_rates-rate unary_numbers "KRW" "USD" start end (memory unary_numbers) unary_dayjs
      unary_dayjs-InUtc api rows (2 * ms_per_day) (4 * ms_per_day ∷ [])
      (("xx", ("USD", 1) ∷ []) ∷ ("xxxx", ("USD", 1) ∷ []) ∷ []) (λ n. n == 1) (4 * ms_per_day)
      (("USD", 1) ∷ []) 1 lacking refl ((_, refl, _, refl, refl), ((_, refl, _, refl, refl), tt))
      refl refl refl refl
