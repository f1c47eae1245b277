-- ===== src/Providers.antt =====
-- infrastructure/externals/exchange-rates: the clients of the services that provide rates. HTTP is no part of the repository:
-- a request is a function of its URL that gives an answer or fails.
pub mod CurrencyLayer
pub mod CoinApi
pub mod Fixer
pub mod FrankFurther
use exchange_watch.Base.{
  ℕ, Bool, if◌then◌else◌, Option, none, some, List, [], ◌∷◌, String, Result, ok, err,
}
use exchange_watch.Numbers.{Numbers}
use exchange_watch.ExchangeRate.{FluctuationRate}

-- Where a request fails or its answer says so.
pub data ProviderError : Type 0 where
  request_failed answer_refused : ProviderError

-- The awaited request.
abbrev pub awaited {ℓ} : {A : Type ℓ} → Option A → Result ProviderError A
awaited none = err ProviderError.request_failed
awaited (some a) = ok a

-- What a getter makes of an answer that says whether it has data.
abbrev pub accepted {ℓ} : {A : Type ℓ} → Bool → A → Result ProviderError A
accepted success a = if success then ok a else err ProviderError.answer_refused

-- interfaces/exchange-rate-api.interface.ts, for latest and for historical rates
pub record RatesResponse (N : Numbers) : Type 0 where
  pub base_currency : String
  pub date : ℕ
  pub rates : List (String × N.Num)

pub record TimeSeriesResponse (N : Numbers) : Type 0 where
  pub base_currency : String
  pub start_date : ℕ
  pub end_date : ℕ
  pub rates : List (String × List (String × N.Num))

-- A property of the rates may be undefined, where CoinAPI has no data.
pub record FluctuationResponse (N : Numbers) : Type 0 where
  pub base_currency : String
  pub start_date : ℕ
  pub end_date : ℕ
  pub rates : List (String × FluctuationRate N)

-- The fluctuation of the answers of Fixer and of CurrencyLayer
pub record RawFluctuation (N : Numbers) : Type 0 where
  pub start_rate : N.Num
  pub end_rate : N.Num
  pub change : N.Num
  pub change_pct : N.Num
