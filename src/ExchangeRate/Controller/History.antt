-- ===== src/ExchangeRate/Controller/History.antt =====
-- Requests for a history: which are accepted, and what they are answered.
use exchange_watch.Base.{ℕ, ◌≡◌, true, String, List, any, ◌==◌}
use exchange_watch.Numbers.{Numbers}
use exchange_watch.Date.{Dayjs, InUtc}
use exchange_watch.ExchangeRate.Daily.{DailyTable}
use exchange_watch.ExchangeRate.Controller.{RateHistory}

-- An accepted period begins within the year before its end, and ends before now.
module _ (d : Dayjs) (utc : InUtc d) (to_upper_case : String → String) (codes : List String) where
  module _ (N : Numbers) (T : DailyTable N) where
    -- The rates of a response have one of this day.
    abbrev pub HasDay : List (RateHistory to_upper_case codes N T d) → ℕ → Type 0
    HasDay rates t = any (λ (r : RateHistory to_upper_case codes N T d). r.date == t) rates ≡ true
