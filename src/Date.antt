-- ===== src/Date.antt =====
-- common/utils/date-util/date-util.service.ts: the calendar of the market. A `Date` is the number
-- of milliseconds since 1970, and `new Date()` is the argument `now`.
pub mod Market
pub mod Between
pub mod Tests
use exchange_watch.Base.{
  ℕ, suc, zero, ◌+◌, ◌-◌, ◌*◌, ◌/◌, ◌%◌, ◌≤◌, ◌≡◌, Bool, not, ◌&&◌, ◌||◌, String, Option, none,
  some, List, [], ◌∷◌, ltb, leb, ◌==◌, if◌then◌else◌, str_eq,
}

abbrev pub ms_per_day : ℕ
ms_per_day = 86400000

-- What the source calls of dayjs, which is no part of the repository.
pub record Dayjs : Type 0 where
  -- `dayjs(t).add(n, 'day')` and `dayjs(t).subtract(n, 'day')`
  pub add : ℕ → ℕ → ℕ
  pub subtract : ℕ → ℕ → ℕ
  -- `dayjs(t).subtract(n, 'month')` and `dayjs(t).subtract(n, 'years')`
  pub subtract_months : ℕ → ℕ → ℕ
  pub subtract_years : ℕ → ℕ → ℕ
  pub is_before : ℕ → ℕ → Bool
  pub is_same : ℕ → ℕ → Bool
  -- `dayjs(t).format('YYYY-MM-DD')`, `dayjs(s).toDate()` and `dayjs.utc(t).format('DD/MM/YYYY')`
  pub format : ℕ → String
  pub parse : String → ℕ
  pub format_utc : ℕ → String

-- What dayjs documents of these, for a process whose time zone is UTC.
pub record InUtc (d : Dayjs) : Type 0 where
  pub add_days : (t n : ℕ) → d.add t n ≡ t + n * ms_per_day
  pub subtract_days : (t n : ℕ) → n * ms_per_day ≤ t → d.subtract t n ≡ t - n * ms_per_day
  -- A year has at most 366 days.
  pub subtract_year : (t : ℕ) → t ≤ d.subtract_years t 1 + 366 * ms_per_day
  pub before : (s t : ℕ) → d.is_before s t ≡ ltb s t
  pub same : (s t : ℕ) → d.is_same s t ≡ (s == t)
  pub parse-format : (t : ℕ) → d.parse (d.format t) ≡ t / ms_per_day * ms_per_day
  pub format_utc_injective :
      (s t : ℕ) → d.format_utc s ≡ d.format_utc t → s / ms_per_day ≡ t / ms_per_day
  pub format_utc_day : (s t : ℕ) → s / ms_per_day ≡ t / ms_per_day → d.format_utc s ≡ d.format_utc t

-- The units that the source passes to dayjs.
pub data ManipulateType : Type 0 where
  day month years : ManipulateType

-- `Date.prototype.getUTCDay`: 1 January 1970 was a Thursday, and Sunday is 0.
abbrev pub get_utc_day : ℕ → ℕ
get_utc_day t = (t / ms_per_day + 4) % 7

-- `isMarketOpen`
pub is_market_open : ℕ → Bool
is_market_open now = let weekday = get_utc_day now in leb 1 weekday && leb weekday 5

-- The `offset` of `getLastMarketDay`.
last_market_offset : ℕ → ℕ
last_market_offset weekday = if weekday == 0 then 2 else if weekday == 1 then 3 else 1

-- `new Date(s.split('T')[0])` of `s = t.toISOString()`: midnight of the day, in UTC.
abbrev pub start_of_day : ℕ → ℕ
start_of_day t = t / ms_per_day * ms_per_day

module _ (d : Dayjs) where
  -- `subDate`
  unfoldable pub sub_date : ℕ → ManipulateType → ℕ → ℕ
  sub_date amount ManipulateType.day date = d.subtract date amount
  sub_date amount ManipulateType.month date = d.subtract_months date amount
  sub_date amount ManipulateType.years date = d.subtract_years date amount

  -- `isBefore`
  abbrev pub is_before_date : ℕ → ℕ → Bool
  is_before_date target_date1 target_date2 = d.is_before target_date1 target_date2

  -- `getYYYYMMDD`
  abbrev pub get_yyyymmdd : ℕ → String
  get_yyyymmdd date = d.format date

  -- `getYesterday`
  pub get_yesterday : ℕ → ℕ
  get_yesterday date = d.subtract date 1

  -- `isNewTradingDay`
  pub is_new_trading_day : ℕ → ℕ → Bool
  is_new_trading_day current_timestamp prev_timestamp =
      not (str_eq (d.format_utc current_timestamp) (d.format_utc prev_timestamp))

  -- `getLastMarketDay`; `setUTCDate` moves by whole days of UTC.
  pub get_last_market_day : ℕ → ℕ
  unfolding last_market_offset
  get_last_market_day now =
      let last_market_day = now - last_market_offset (get_utc_day now) * ms_per_day in
      d.parse (d.format last_market_day)

  -- The `while` loop of `getDatesBetween`, with `none` where the fuel runs out.
  dates_loop : ℕ → ℕ → ℕ → Option (List ℕ)
  dates_loop zero current_date last_date = none
  dates_loop (suc fuel) current_date last_date =
      let rest = dates_loop fuel (d.add current_date 1) last_date in
      if d.is_before current_date last_date || d.is_same current_date last_date
      then elim rest [ none ↦ none | some dates ↦ some (start_of_day current_date ∷ dates) ]
      else some []

  -- `getDatesBetween`, with fuel for one round a day and one more.
  pub get_dates_between : ℕ → ℕ → Option (List ℕ)
  unfolding dates_loop
  get_dates_between started_at ended_at =
      dates_loop (suc (suc ((ended_at - started_at) / ms_per_day))) started_at ended_at
