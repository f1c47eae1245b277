-- ===== src/Providers/CurrencyLayer/StandIn.antt =====
-- currencylayer/constant/currencylayer.constant.ts and mock/currencylayer-mock.service.ts: the stand-in for CurrencyLayer, which
-- makes up an answer of its form and parses it as the service does. `Math.random` is a sequence of numbers.
pub mod Series
pub mod History
use Prim.Native.String.{◌++◌ as str_append}
use exchange_watch.Base.{
  ℕ, zero, suc, ◌+◌, ◌-◌, ◌*◌, ◌/◌, true, not, String, str_eq, List, [], ◌∷◌, map, filter, length,
  leb, if◌then◌else◌,
}
use exchange_watch.Numbers.{Numbers}
use exchange_watch.Strings.{put}
use exchange_watch.Date.{ms_per_day}
use exchange_watch.ExchangeRate.Constants.{support_currency_list}
use exchange_watch.Providers.{
  RatesResponse, TimeSeriesResponse, FluctuationResponse, RawFluctuation,
}
use exchange_watch.Providers.CurrencyLayer.{
  RealTimeRates, HistoricalRates, TimeFrameRates, ChangeRates, parse_real_time_quotes,
  parse_fluctuation_quotes, parse_time_series_quotes,
}

-- `dayCount`: `Math.round` of the difference in days, a half rounded up, and one more. No round is made for a count below 0.
abbrev pub day_count_between : ℕ → ℕ → ℕ
day_count_between start_date end_date =
    if leb start_date end_date
    then (2 * (end_date - start_date) + ms_per_day) / (2 * ms_per_day) + 1
    else 1 - (2 * (start_date - end_date) + ms_per_day - 1) / (2 * ms_per_day)

-- `iso_day` is `date.toISOString().split('T')[0]`.
module _ (N : Numbers) (to_upper_case : String → String) (iso_day : ℕ → String) where
  open N use {Num}

  -- A number of tenths.
  abbrev pub tenths : ℕ → Num
  tenths n = N.div (N.int n) (N.int 10)

  -- `getRandomRate`, with its default bounds
  abbrev pub get_random_rate : Num → Num
  get_random_rate random =
      N.to_fixed_6 (N.add (N.mul random (N.sub (N.int 2) (tenths 5))) (tenths 5))

  -- `upperSymbols`
  abbrev pub upper_symbols : String → List String → List String
  upper_symbols base [] = filter (λ c. not (str_eq c base)) support_currency_list
  upper_symbols base (code ∷ codes) = map to_upper_case (code ∷ codes)

  -- The loop over the targets, from the random number `i` on.
  unfoldable pub random_quotes :
      (ℕ → Num) → ℕ → String → List String → List (String × Num) → List (String × Num)
  random_quotes random i base [] quotes = quotes
  random_quotes random i base (target ∷ targets) quotes =
      random_quotes random (suc i) base targets
        (put (str_append base target) (get_random_rate (random i)) quotes)

  -- `mockLatestRateFn` and `mockHistoricalRateFn`
  unfoldable pub mock_latest_rate_fn : (ℕ → Num) → ℕ → String → List String → RealTimeRates N
  mock_latest_rate_fn random now base codes = record {
    success = true;
    timestamp = now / 1000;
    source = base;
    quotes = random_quotes random 0 base (upper_symbols base codes) [];
  }

  unfoldable pub mock_historical_rate_fn : (ℕ → Num) → ℕ → String → List String → HistoricalRates N
  mock_historical_rate_fn random date base codes = record {
    success = true;
    date = date;
    source = base;
    quotes = random_quotes random 0 base (upper_symbols base codes) [];
  }

  -- The fluctuation of one target, of two random numbers.
  abbrev random_fluctuation : Num → Num → RawFluctuation N
  random_fluctuation first second =
      let start_rate = get_random_rate first in
      let pct_change = N.to_fixed_6 (N.sub (N.mul second (tenths 4)) (tenths 2)) in
      let end_rate = N.to_fixed_6 (N.mul start_rate (N.add (N.int 1) pct_change)) in
      let change = N.to_fixed_6 (N.sub end_rate start_rate) in
      record {
        start_rate = start_rate;
        end_rate = end_rate;
        change = change;
        change_pct = N.to_fixed_4 (N.mul (N.div change start_rate) (N.int 100));
      }

  unfoldable pub random_fluctuations :
      (ℕ → Num)
      → ℕ
      → String
      → List String
      → List (String × RawFluctuation N)
      → List (String × RawFluctuation N)
  random_fluctuations random i base [] quotes = quotes
  random_fluctuations random i base (target ∷ targets) quotes =
      random_fluctuations random (i + 2) base targets
        (put (str_append base target) (random_fluctuation (random i) (random (i + 1))) quotes)

  -- `mockFluctuationRatesFn`
  unfoldable pub mock_fluctuation_rates_fn :
      (ℕ → Num) → ℕ → ℕ → String → List String → ChangeRates N
  mock_fluctuation_rates_fn random start_date end_date base codes = record {
    success = true;
    start_date = start_date;
    end_date = end_date;
    source = base;
    quotes = random_fluctuations random 0 base (upper_symbols base codes) [];
  }

  -- The loop over the days: `n` rounds, of which this one is number `i`.
  unfoldable pub random_days :
      (ℕ → Num)
      → ℕ
      → String
      → List String
      → ℕ
      → ℕ
      → List (String × List (String × Num))
      → List (String × List (String × Num))
  unfolding random_quotes
  random_days random start_date base targets zero i quotes = quotes
  random_days random start_date base targets (suc n) i quotes =
      random_days random start_date base targets n (suc i) (
        put (iso_day (start_date + i * ms_per_day))
          (random_quotes random (i * length targets) base targets []) quotes)

  -- `mockTimeSeriesRateFn`
  unfoldable pub mock_time_series_rate_fn :
      (ℕ → Num) → ℕ → ℕ → String → List String → TimeFrameRates N
  unfolding random_days
  mock_time_series_rate_fn random start_date end_date base codes = record {
    success = true;
    start_date = start_date;
    end_date = end_date;
    source = base;
    quotes =
        random_days random start_date base (upper_symbols base codes)
          (day_count_between start_date end_date) 0 [];
  }

  -- `MockCurrencyLayerService`, whose calls do not fail
  unfoldable pub mock_latest_rates : (ℕ → Num) → ℕ → String → List String → RatesResponse N
  unfolding mock_latest_rate_fn
  mock_latest_rates random now base codes =
      let result = mock_latest_rate_fn random now base codes in
      record {
        base_currency = result.source;
        date = result.timestamp * 1000;
        rates = parse_real_time_quotes N result.source result.quotes;
      }

  unfoldable pub mock_fluctuation_data :
      (ℕ → Num) → ℕ → ℕ → String → List String → FluctuationResponse N
  unfolding mock_fluctuation_rates_fn
  mock_fluctuation_data random start_date end_date base codes =
      let result = mock_fluctuation_rates_fn random start_date end_date base codes in
      record {
        base_currency = result.source;
        start_date = result.start_date;
        end_date = result.end_date;
        rates = parse_fluctuation_quotes N result.source result.quotes;
      }

  unfoldable pub mock_time_series_data :
      (ℕ → Num) → ℕ → ℕ → String → List String → TimeSeriesResponse N
  unfolding mock_time_series_rate_fn
  mock_time_series_data random start_date end_date base codes =
      let result = mock_time_series_rate_fn random start_date end_date base codes in
      record {
        base_currency = result.source;
        start_date = result.start_date;
        end_date = result.end_date;
        rates = parse_time_series_quotes N result.source result.quotes;
      }

  unfoldable pub mock_historical_rates : (ℕ → Num) → ℕ → String → List String → RatesResponse N
  unfolding mock_historical_rate_fn
  mock_historical_rates random date base codes =
      let result = mock_historical_rate_fn random date base codes in
      record {
        base_currency = result.source;
        date = result.date;
        rates = parse_real_time_quotes N result.source result.quotes;
      }
