-- ===== src/Date/Tests.antt =====
-- Runs and instances of the calendar's theorems.
use Prim.Native.String.{String}
use exchange_watch.Base.{
  ℕ, zero, suc, ◌+◌, ◌-◌, ◌*◌, ◌/◌, ◌<◌, ◌≡◌, ◌≢◌, refl, ap, some, true, false, arith, ltb, ◌==◌,
}
use exchange_watch.Date.{
  ms_per_day, Dayjs, InUtc, is_market_open, start_of_day, get_last_market_day, get_dates_between,
  get_yesterday, last_market_offset,
}
use exchange_watch.Date.Market.{get_last_market_day_lem}
use exchange_watch.Date.Between.{days_from, day_count, get_dates_between_lem}

-- Days written in unary: a concrete function for each of the library's.
unfoldable pub unary : ℕ → String
unary zero = String.[]
unary (suc n) = String.◌∷◌ "x" (unary n)

pub marks : String → ℕ
marks String.[] = 0
marks (String.◌∷◌ c s) = suc (marks s)

marks-unary : (n : ℕ) → marks (unary n) ≡ n
unfolding marks unary
marks-unary zero = refl
marks-unary (suc n) = ap suc (marks-unary n)

abbrev pub unary_dayjs : Dayjs
unary_dayjs = record {
  add = λ t n. t + n * ms_per_day;
  subtract = λ t n. t - n * ms_per_day;
  subtract_months = λ t n. t - n * (30 * ms_per_day);
  subtract_years = λ t n. t - n * (365 * ms_per_day);
  is_before = ltb;
  is_same = ◌==◌;
  format = λ t. unary (t / ms_per_day);
  parse = λ s. marks s * ms_per_day;
  format_utc = λ t. unary (t / ms_per_day);
}

pub unary_dayjs-InUtc : InUtc unary_dayjs
unary_dayjs-InUtc = record {
  add_days = λ t n. refl;
  subtract_days = λ t n h. refl;
  subtract_year = λ t. omega arith;
  before = λ s t. refl;
  same = λ s t. refl;
  parse-format = λ t. ap (λ n. n * ms_per_day) (marks-unary (t / ms_per_day));
  format_utc_injective =
      λ s t e. rw (← marks-unary (s / ms_per_day), e) (marks-unary (t / ms_per_day));
  format_utc_day = λ s t e. ap unary e;
}

-- 4 May 2025, a Sunday, at noon.
abbrev pub sunday_noon : ℕ
sunday_noon = 1746360000000

pub sunday_closed : is_market_open sunday_noon ≡ false
unfolding is_market_open
sunday_closed = refl

get_last_market_day_example :
    (is_market_open (get_last_market_day unary_dayjs sunday_noon) ≡ true)
    × (start_of_day (get_last_market_day unary_dayjs sunday_noon)
        ≡ get_last_market_day unary_dayjs sunday_noon)
    × (get_last_market_day unary_dayjs sunday_noon / ms_per_day < sunday_noon / ms_per_day)
    × ((t : ℕ)
        → get_last_market_day unary_dayjs sunday_noon / ms_per_day < t / ms_per_day
        → t / ms_per_day < sunday_noon / ms_per_day
        → is_market_open t ≡ false)
get_last_market_day_example =
    get_last_market_day_lem unary_dayjs unary_dayjs-InUtc sunday_noon (omega arith)

get_dates_between_example :
    get_dates_between unary_dayjs 1746360000000 1746500000000
    ≡ some (days_from 20212 (day_count 1746360000000 1746500000000))
get_dates_between_example =
    get_dates_between_lem unary_dayjs unary_dayjs-InUtc 1746360000000 1746500000000

pub before_friday :
    start_of_day (get_yesterday unary_dayjs (get_last_market_day unary_dayjs sunday_noon))
    ≢ start_of_day (get_last_market_day unary_dayjs sunday_noon)
unfolding get_last_market_day get_yesterday last_market_offset
before_friday e = omega (arith, e, marks-unary 20210)
