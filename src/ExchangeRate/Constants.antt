-- ===== src/ExchangeRate/Constants.antt =====
-- modules/exchange-rate/constants: the currencies, and when a rate's change is published.
pub use exchange_watch.Strings.{lookup}
use exchange_watch.Base.{List, [], ◌∷◌, String, none, some}

abbrev pub support_currency_list : List String
support_currency_list =
    "AUD" ∷ "BGN" ∷ "BRL" ∷ "CAD" ∷ "CHF" ∷ "CNY" ∷ "CZK" ∷ "DKK" ∷ "GBP" ∷ "HKD" ∷ "HUF" ∷ "IDR"
    ∷ "ILS" ∷ "INR" ∷ "ISK" ∷ "JPY" ∷ "KRW" ∷ "MXN" ∷ "MYR" ∷ "NOK" ∷ "NZD" ∷ "PHP" ∷ "PLN" ∷ "RON"
    ∷ "SEK" ∷ "SGD" ∷ "THB" ∷ "TRY" ∷ "USD" ∷ "ZAR" ∷ "EUR" ∷ []

-- Percent of the opening rate, and least absolute change, as the decimal literals of the source.
pub record Threshold : Type 0 where
  pub pct : String
  pub min_abs : String

abbrev pub currency_thresholds : List (String × Threshold)
currency_thresholds =
    ("USD", record { pct = "0.1"; min_abs = "0.000007" })
    ∷ ("EUR", record { pct = "0.1"; min_abs = "0.000006" })
    ∷ ("GBP", record { pct = "0.1"; min_abs = "0.000005" })
    ∷ ("CAD", record { pct = "0.1"; min_abs = "0.000009" })
    ∷ ("AUD", record { pct = "0.1"; min_abs = "0.00001" })
    ∷ ("CHF", record { pct = "0.1"; min_abs = "0.000006" })
    ∷ ("NZD", record { pct = "0.1"; min_abs = "0.000012" })
    ∷ ("SGD", record { pct = "0.1"; min_abs = "0.000009" })
    ∷ ("HKD", record { pct = "0.1"; min_abs = "0.00005" })
    ∷ ("JPY", record { pct = "0.15"; min_abs = "0.001" })
    ∷ ("HUF", record { pct = "0.15"; min_abs = "0.002" })
    ∷ ("ISK", record { pct = "0.15"; min_abs = "0.001" })
    ∷ ("IDR", record { pct = "0.2"; min_abs = "0.1" })
    ∷ ("INR", record { pct = "0.2"; min_abs = "0.005" })
    ∷ ("PHP", record { pct = "0.2"; min_abs = "0.04" })
    ∷ ("THB", record { pct = "0.2"; min_abs = "0.02" })
    ∷ ("BRL", record { pct = "0.5"; min_abs = "0.0001" })
    ∷ ("TRY", record { pct = "0.8"; min_abs = "0.0002" })
    ∷ ("ZAR", record { pct = "0.5"; min_abs = "0.0001" })
    ∷ ("MXN", record { pct = "0.4"; min_abs = "0.0001" })
    ∷ ("DEFAULT", record { pct = "0.2"; min_abs = "0.0001" })
    ∷ []

-- `CURRENCY_THRESHOLDS['DEFAULT']`
abbrev default_threshold : Threshold
default_threshold = record { pct = "0.2"; min_abs = "0.0001" }

-- `CURRENCY_THRESHOLDS[currencyCode] ?? CURRENCY_THRESHOLDS['DEFAULT']`
abbrev pub threshold_of : String → Threshold
threshold_of currency_code = elim (lookup currency_code currency_thresholds) [
  | none ↦ default_threshold
  | some t ↦ t
]
