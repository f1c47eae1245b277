-- ===== src/ExchangeRate.antt =====
-- modules/exchange-rate: exchange-rate-redis.service.ts, and the data that the services share.
pub mod Constants
pub mod Names
pub mod Controller
pub mod Daily
pub mod Queries
pub mod Latest
pub mod Tests
use exchange_watch.Base.{
  ℕ, ◌≡◌, Bool, Option, none, some, String, str_eq, List, [], ◌∷◌, ◌++◌, map, if◌then◌else◌,
}
use Prim.Native.String.{◌++◌ as str_append}
use exchange_watch.Numbers.{Numbers}
use exchange_watch.Redis.Cache.{Client, hset, hmget, set}

module _ (N : Numbers) where
  open N use {Num}

  -- `ILatestRateHash`; `Partial<ILatestRateHash>` in the order of an object's properties
  pub record LatestRateHash : Type 0 where
    pub rate : Num
    pub change : Num
    pub change_pct : Num
    pub timestamp : ℕ
    pub open_rate : Num

  -- `IUpdateRate`
  pub record UpdateRate : Type 0 where
    pub base_currency : String
    pub currency_code : String
    pub hash : LatestRateHash

  -- `IExchangeRateRaw.ICreateRate`
  pub record CreateRate : Type 0 where
    pub base_currency : String
    pub currency_code : String
    pub rate : Num

  -- One currency of `IFluctuationResponse['rates']`
  pub record FluctuationRate : Type 0 where
    pub start_rate : Num
    pub end_rate : Num
    pub change : Num
    pub change_pct : Num

  -- The fields that ioredis sends for a whole hash.
  abbrev pub hash_fields : LatestRateHash → List (String × String)
  hash_fields h =
      ("rate", N.print h.rate)
      ∷ ("change", N.print h.change)
      ∷ ("changePct", N.print h.change_pct)
      ∷ ("timestamp", N.print_int h.timestamp)
      ∷ ("openRate", N.print h.open_rate)
      ∷ []

abbrev pub rate_key : String → String → String
rate_key base_currency currency_code =
    str_append "exchange-rate:latest-rate:"
      (str_append base_currency (str_append "/" currency_code))

abbrev pub health_key : String → String
health_key base_currency = str_append "exchange-rate:health-check:" base_currency

abbrev pub update_channel : String → String → String
update_channel base_currency currency_code =
    str_append "rate-update:" (str_append base_currency (str_append "/" currency_code))

module _ (C : Client) where
  open C use {Db}

  unfoldable pub get_latest_rate : String → String → List String → Db → List (Option String)
  unfolding hmget
  get_latest_rate base_currency currency_code fields db =
      hmget C (rate_key base_currency currency_code) fields db

  unfoldable pub set_latest_rate : (N : Numbers) → String → LatestRateHash N → Db → Db
  unfolding hset
  set_latest_rate N currency_code fields db =
      hset C (rate_key "KRW" currency_code) (hash_fields N fields) db

  unfoldable pub update_latest_rate : String → String → List (String × String) → Db → Db
  unfolding hset
  update_latest_rate base_currency currency_code fields db =
      hset C (rate_key base_currency currency_code) fields db

  -- `iso` is the JSON text of `new Date().toISOString()`
  unfoldable pub update_health_check : (ℕ → String) → String → ℕ → Db → Db
  unfolding set
  update_health_check iso base_currency now db =
      set C (health_key base_currency) (iso now) 30 now db

  -- `parse_date` reads such a text back
  unfoldable pub get_latest_rate_health_check : (String → ℕ) → String → ℕ → Db → Option ℕ
  get_latest_rate_health_check parse_date base_currency now db =
      elim (C.get (health_key base_currency) now db) [ none ↦ none | some s ↦ some (parse_date s) ]
