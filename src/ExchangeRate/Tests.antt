-- ===== src/ExchangeRate/Tests.antt =====
-- Instances of the theorems on the rates, over Redis in memory and numbers in unary.
use exchange_watch.Base.{
  ℕ, ◌+◌, ◌≡◌, ◌≢◌, refl, sym, true, false, Option, none, some, is_some, String, str_eq, eq_iff,
  List, [], ◌∷◌, map, ok, All, IsIn, inl, inr, if◌then◌else◌, length, arith,
}
use exchange_watch.Numbers.Unary.{unary_numbers, parse-print, print_some, print}
use exchange_watch.Date.{get_yesterday, get_last_market_day}
use exchange_watch.Date.Tests.{
  unary_dayjs, unary_dayjs-InUtc, sunday_noon, sunday_closed, before_friday,
}
use exchange_watch.Requests.{every}
use exchange_watch.Redis.Cache.Stored.{empty, client}
use exchange_watch.ExchangeRate.Constants.{support_currency_list, lookup}
use exchange_watch.ExchangeRate.Daily.Memory.{memory}
use exchange_watch.ExchangeRate.Daily.{DailyRate, DailyTable, is_char_3}
use exchange_watch.Redis.Cache.{hmget}
use exchange_watch.ExchangeRate.{FluctuationRate, get_latest_rate, get_latest_rate_health_check}
use exchange_watch.ExchangeRate.Latest.{
  FluctuationApi, World, check_missing_currencies, target_currencies,
}
use exchange_watch.ExchangeRate.Latest.Updates.{Holds, stored, run_updates, run_updates_lem}
use exchange_watch.ExchangeRate.Queries.{
  RateDetail, get_currency_exchange_rates, from_cache, is_cache_hit,
}
use exchange_watch.ExchangeRate.Queries.Closed.{NoChanges, closed_market_lem}
use exchange_watch.ExchangeRate.Queries.Repeats.{AllFit}
use exchange_watch.ExchangeRate.Queries.Fallback.{AllSaved, fallback_finds_nothing}

abbrev rate : FluctuationRate unary_numbers
rate = record { start_rate = 5; end_rate = 6; change = 1; change_pct = 20 }

-- An API that answers for each currency that it is asked for.
abbrev pub answers : FluctuationApi unary_numbers
answers start_date end_date base codes = some (map (λ c. (c, rate)) codes)

abbrev fails : FluctuationApi unary_numbers
fails start_date end_date base codes = none

lookup-map :
    (c : String) (codes : List String)
    → IsIn c codes
    → is_some (lookup c (map (λ d. (d, rate)) codes)) ≡ true
lookup-map c [] i = absurd (i tt)
lookup-map c (d ∷ codes) (inl e) = rw ((eq_iff d c).1 (sym e)) refl
lookup-map c (d ∷ codes) (inr i) = ground (arith, lookup-map c codes i)

All_of : (P : String → Type 0) (xs : List String) → ((x : String) → IsIn x xs → P x) → All P xs
All_of P [] f = tt
All_of P (x ∷ xs) f = (f x (inl refl), All_of P xs (λ y i. f y (inr i)))

abbrev missing : List String
missing = check_missing_currencies unary_numbers client target_currencies empty

some_missing : missing ≢ []
unfolding check_missing_currencies target_currencies get_latest_rate hmget
some_missing e = cc

-- Every currency at 7, opened at 5, five milliseconds into 1970.
abbrev pub full : World unary_numbers client
full = record {
  db = record {
    hashes = λ k f.
        if str_eq f "rate"
        then some (print 7)
        else if str_eq f "timestamp"
        then some (print 5)
        else some (print 5);
    values = λ k. some ("now", some (sunday_noon + 30000));
  };
  published = [];
  raws = [];
}

full-Holds : Holds unary_numbers client "USD" (print 7) (print 5) (print 5) full
full-Holds = record {
  rate = refl;
  timestamp = refl;
  open_rate = refl;
  rate_some = print_some 7;
  timestamp_some = print_some 5;
  open_rate_some = print_some 5;
}

abbrev iso : ℕ → String
iso now = "2025-05-04T12:00:00.000Z"

run_updates_example :
    (after : World unary_numbers client) × (run_updates unary_numbers client unary_dayjs answers iso
        "USD" 9
        ((8, 6) ∷ (9, 7) ∷ [])
        full
      ≡ ok after)
    × (stored unary_numbers client "USD" "openRate" after ≡ some (print 5))
    × (length after.raws ≡ 2)
run_updates_example =
    run_updates_lem unary_numbers client unary_dayjs answers unary_dayjs-InUtc iso "USD" 9 0
      ((8, 6) ∷ (9, 7) ∷ []) full (print 7) (print 5) (print 5) full-Holds (rw (parse-print 5) refl)
      (refl, (refl, tt))

-- A table of daily rates in memory.
abbrev daily : DailyTable unary_numbers
daily = memory unary_numbers

abbrev pub same : String → String
same s = s

abbrev pub no_latest : String → Option (ℕ × List (String × ℕ))
no_latest base = none

abbrev pub cached : List (String × RateDetail unary_numbers)
cached = from_cache unary_numbers same client false ("USD" ∷ []) full.db

pub cache_hit :
    (rows : List (DailyRate unary_numbers))
    → get_currency_exchange_rates unary_numbers daily client unary_dayjs same
        (λ s. sunday_noon)
        no_latest
        answers
        "KRW"
        ("USD" ∷ [])
        sunday_noon
        full.db
        rows
      ≡ ok (cached, rows)
unfolding get_currency_exchange_rates get_latest_rate_health_check
cache_hit rows = rw sunday_closed refl

closed_market_example : NoChanges unary_numbers cached
closed_market_example =
    closed_market_lem unary_numbers daily client unary_dayjs same (λ s. sunday_noon) no_latest
      answers "KRW" ("USD" ∷ []) sunday_noon full.db [] cached [] sunday_closed (cache_hit [])

no_health_check :
    is_cache_hit sunday_noon
      (get_latest_rate_health_check client (λ s. sunday_noon) "KRW" sunday_noon empty)
    ≡ false
unfolding get_latest_rate_health_check
no_health_check = refl

fitting :
    (day : ℕ) (codes : List String)
    → every is_char_3 codes ≡ true
    → AllFit unary_numbers day (map (λ c. (c, rate)) codes)
fitting day [] e = tt
fitting day (code ∷ codes) e = (ground (arith, e), fitting day codes (ground (arith, e)))

fallback_finds_nothing_example :
    (later : List (DailyRate unary_numbers)) × (get_currency_exchange_rates unary_numbers daily
        client unary_dayjs same
        (λ s. sunday_noon)
        no_latest
        answers
        "KRW"
        ("USD" ∷ [])
        sunday_noon
        empty
        []
      ≡ ok ([], later))
    × AllSaved unary_numbers
        (get_yesterday unary_dayjs (get_last_market_day unary_dayjs sunday_noon))
        (map (λ c. (c, rate)) support_currency_list)
        later
fallback_finds_nothing_example =
    fallback_finds_nothing unary_numbers daily client unary_dayjs same (λ s. sunday_noon) no_latest
      answers "KRW" ("USD" ∷ []) sunday_noon empty [] (map (λ c. (c, rate)) support_currency_list)
      sunday_closed no_health_check before_friday refl refl
      (fitting (get_yesterday unary_dayjs (get_last_market_day unary_dayjs sunday_noon))
        support_currency_list refl)
