-- ===== src/Agents/Summary.antt =====
-- What a summary covers.
use exchange_watch.Base.{ℕ, suc, ◌-◌, ◌/◌, ◌≡◌, true, List, any, ◌==◌}
use exchange_watch.Numbers.{Numbers}
use exchange_watch.Date.{ms_per_day, Dayjs, InUtc}
use exchange_watch.Date.Between.{days_from}
use exchange_watch.Redis.Cache.{Client}
use exchange_watch.ExchangeRate.Daily.{DailyTable}
use exchange_watch.Agents.{HistoricalItem}

module _ (N : Numbers) where
  -- A rate of this day.
  abbrev pub HasItem : List (HistoricalItem N) → ℕ → Type 0
  HasItem items t = any (λ (i : HistoricalItem N). i.rate_date == t) items ≡ true

  module _ (T : DailyTable N) (C : Client) (D : Dayjs) (utc : InUtc D) where
    -- The days from so many days ago to today.
    abbrev pub days_to : ℕ → ℕ → List ℕ
    days_to days start_now = days_from (start_now / ms_per_day - days) (suc days)
