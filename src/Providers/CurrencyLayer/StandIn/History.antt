-- ===== src/Providers/CurrencyLayer/StandIn/History.antt =====
-- The history with the stand-in in the place of the service that has the rates of the past.
use exchange_watch.Base.{ℕ, ◌%◌, ◌≤◌, ◌≡◌, true, some, String, List, [], ◌∷◌, All}
use exchange_watch.Numbers.{Numbers}
use exchange_watch.Date.{ms_per_day, Dayjs, InUtc}
use exchange_watch.ExchangeRate.Daily.{DailyTable, is_char_3}
use exchange_watch.ExchangeRate.Queries.{TimeSeriesApi}
use exchange_watch.Providers.CurrencyLayer.StandIn.{get_random_rate, mock_time_series_data}

-- The days of a list come in order, and each is a midnight.
abbrev Ascends : List ℕ → Type 0
Ascends [] = Unit
Ascends (d ∷ days) = All (λ e. d ≤ e) days × Ascends days

abbrev IsMidnight : ℕ → Type 0
IsMidnight d = d % ms_per_day ≡ 0

module _ (N : Numbers) (to_upper_case : String → String) (T : DailyTable N) (D : Dayjs)
    (utc : InUtc D) (random : ℕ → N.Num) where
  -- The stand-in as the API of the past; for a process in UTC its days are those that dayjs formats.
  abbrev pub stand_in_series : TimeSeriesApi N
  stand_in_series start_date end_date base codes =
      some
        (mock_time_series_data N to_upper_case D.format random start_date end_date base codes).rates

  module _ (base code : String) where
    -- The columns can hold the codes, and the inverse of each random rate.
    abbrev pub AllStorable : Type 0
    AllStorable =
        (is_char_3 base ≡ true)
        × (is_char_3 code ≡ true)
        × ((i : ℕ)
            → N.storable (N.div (N.int 1) (get_random_rate N to_upper_case D.format (random i)))
              ≡ true)
