-- ===== src/Providers/CurrencyLayer/Tests.antt =====
-- Instances of the theorems on CurrencyLayer's answers.
use exchange_watch.Base.{
  ℕ, ◌+◌, ◌*◌, ◌/◌, ◌≡◌, refl, Bool, true, false, not, ◌&&◌, some, is_some, List, [], ◌∷◌, String,
  str_eq, ok, All, map, arith,
}
use exchange_watch.Numbers.{Numbers}
use exchange_watch.Numbers.Unary.{unary_numbers}
use exchange_watch.Strings.{lookup}
use exchange_watch.Strings.Laws.{DistinctKeys}
use exchange_watch.Date.Tests.{unary_dayjs, sunday_noon}
use exchange_watch.Date.{ms_per_day}
use exchange_watch.Redis.Cache.Stored.{Stored, empty, client}
use exchange_watch.ExchangeRate.Latest.{
  check_missing_currencies, target_currencies, initialize_all_currency_data,
}
use exchange_watch.Providers.{RawFluctuation}
use exchange_watch.Providers.CurrencyLayer.{ChangeRates, parse_time_series_quotes}
use exchange_watch.Providers.CurrencyLayer.Parsing.{
  quoted, quoted_days, parse_time_series_quotes-quoted,
}
use exchange_watch.Providers.CurrencyLayer.Start.{fluctuation_api, currency_layer_initializes}

abbrev day : String
day = "2025-01-02"

-- Two days of two currencies, the source among them.
abbrev days : List (String × List (String × ℕ))
days = ("2025-01-01", ("USD", 1) ∷ ("GBP", 7) ∷ []) ∷ (day, ("USD", 1) ∷ ("GBP", 8) ∷ []) ∷ []

parse_time_series_quotes-quoted_example :
    parse_time_series_quotes unary_numbers "USD" (quoted_days unary_numbers "USD" days) ≡ days
parse_time_series_quotes-quoted_example =
    parse_time_series_quotes-quoted unary_numbers "USD" days ((refl, tt), (tt, tt))
      (((refl, tt), (tt, tt)), (((refl, tt), (tt, tt)), tt))

abbrev one : RawFluctuation unary_numbers
one = record { start_rate = 5; end_rate = 6; change = 1; change_pct = 20 }

abbrev missing : List String
missing = check_missing_currencies unary_numbers client target_currencies empty

abbrev rates : List (String × RawFluctuation unary_numbers)
rates = map (λ c. (c, one)) target_currencies

abbrev answer : ChangeRates unary_numbers
answer = record {
  success = true;
  start_date = 0;
  end_date = sunday_noon;
  source = "KRW";
  quotes = quoted "KRW" rates;
}

apart : String → List (String × RawFluctuation unary_numbers) → Bool
apart k [] = true
apart k (e ∷ es) = not (str_eq k (e.0)) && apart k es

distinct : List (String × RawFluctuation unary_numbers) → Bool
unfolding apart
distinct [] = true
distinct (e ∷ es) = apart (e.0) es && distinct es

apart-All :
    (k : String) (es : List (String × RawFluctuation unary_numbers))
    → apart k es ≡ true
    → All (λ (e : String × RawFluctuation unary_numbers). str_eq k (e.0) ≡ false) es
unfolding apart
apart-All k [] h = tt
apart-All k (e ∷ es) h = (ground (arith, h), apart-All k es (ground (arith, h)))

distinct-DistinctKeys :
    (es : List (String × RawFluctuation unary_numbers)) → distinct es ≡ true → DistinctKeys es
unfolding distinct
distinct-DistinctKeys [] h = tt
distinct-DistinctKeys (e ∷ es) h =
    (apart-All (e.0) es (ground (arith, h)), distinct-DistinctKeys es (ground (arith, h)))

rates_distinct : DistinctKeys rates
unfolding target_currencies distinct apart
rates_distinct = distinct-DistinctKeys rates refl

found : List String → Bool
found [] = true
found (c ∷ codes) = is_some (lookup c rates) && found codes

found-All :
    (codes : List String) → found codes ≡ true → All (λ c. is_some (lookup c rates) ≡ true) codes
unfolding found
found-All [] h = tt
found-All (c ∷ codes) h = (ground (arith, h), found-All codes (ground (arith, h)))

rates_quoted : All (λ c. is_some (lookup c rates) ≡ true) missing
unfolding target_currencies check_missing_currencies found
rates_quoted = found-All missing refl

currency_layer_initializes_example :
    (later : Stored) × (initialize_all_currency_data unary_numbers client unary_dayjs
        (fluctuation_api unary_numbers "http://api" "key" (λ t. day) (λ url. some answer))
        sunday_noon
        empty
      ≡ ok later)
    × (check_missing_currencies unary_numbers client target_currencies later ≡ [])
currency_layer_initializes_example =
    currency_layer_initializes unary_numbers "http://api" "key" (λ t. day) (λ url. some answer)
      client unary_dayjs sunday_noon empty answer rates refl refl refl rates_distinct rates_quoted

abbrev evening : ℕ
evening = 2 * ms_per_day + 18 * 3600000

abbrev morning : ℕ
morning = 9 * ms_per_day + 6 * 3600000

-- A division that rounds up, so that no inverse is 0, which is NaN here.
abbrev rounding_up : Numbers
rounding_up = record unary_numbers { div = λ a b. a / b + 1 }
