-- ===== src/Providers/CoinApi.antt =====
-- coin-api/coin-api.service.ts
use exchange_watch.Base.{ℕ, Option, none, some, List, [], ◌∷◌, String, Result, ok, ◌>>=◌, ◌==◌}
use exchange_watch.Numbers.{Numbers}
use exchange_watch.Strings.{join, from_entries}
use exchange_watch.ExchangeRate.Constants.{support_currency_list}
use exchange_watch.ExchangeRate.{FluctuationRate}
use exchange_watch.Providers.{ProviderError, awaited, accepted, RatesResponse}

module _ (N : Numbers) where
  open N use {Num}

  -- interfaces/coin-api-response.interface.ts: the rates, each of a quoted currency, with the status of the answer
  pub record CurrentRatesResponse : Type 0 where
    pub status : ℕ
    pub asset_id_base : String
    pub rates : List (String × Num)

  pub record Period : Type 0 where
    pub rate_open : Num
    pub rate_close : Num

  -- What `getFluctuationData` returns: a currency without data has an undefined rate.
  pub record CoinFluctuation : Type 0 where
    pub base_currency : String
    pub start_date : ℕ
    pub end_date : ℕ
    pub rates : List (String × Option (FluctuationRate N))

  abbrev codes_or_all : List String → List String
  codes_or_all [] = support_currency_list
  codes_or_all (code ∷ codes) = code ∷ codes

  -- `getLatestRates`
  pub get_latest_rates :
      String
      → (String → Option CurrentRatesResponse)
      → ℕ
      → String
      → List String
      → Result ProviderError (RatesResponse N)
  get_latest_rates api_url get now base codes = do
    data' ← awaited (
        get (
          join "" (
            api_url
            ∷ "/exchangerate/"
            ∷ base
            ∷ "?filter_asset_id="
            ∷ join ";" (codes_or_all codes)
            ∷ ";"
            ∷ [])))
    accepted (data'.status == 200) (record {
      base_currency = data'.asset_id_base;
      date = now;
      rates = from_entries data'.rates;
    })

  -- The rates of one period of the answer.
  abbrev pub of_period : Period → FluctuationRate N
  of_period entry =
      let change = N.sub entry.rate_close entry.rate_open in
      record {
        start_rate = entry.rate_open;
        end_rate = entry.rate_close;
        change = change;
        change_pct = N.mul (N.div change entry.rate_open) (N.int 100);
      }

  -- `response.rates[0]`
  abbrev pub first_period : List Period → Option (FluctuationRate N)
  first_period [] = none
  first_period (entry ∷ entries) = some (of_period entry)

  -- The requests that `getFluctuationData` awaits together, one for each currency
  unfoldable pub request_periods :
      (String → Option (List Period))
      → (String → String)
      → List String
      → Result ProviderError (List (String × Option (FluctuationRate N)))
  request_periods get url [] = ok []
  request_periods get url (code ∷ codes) =
      let rest = request_periods get url codes in
      awaited (get (url code))
      >>= (λ data'. rest >>= (λ entries. (ok ((code, first_period data') ∷ entries))))

  -- `getFluctuationData`
  pub get_fluctuation_data :
      (ℕ → String)
      → (String → Option (List Period))
      → ℕ
      → ℕ
      → String
      → List String
      → Result ProviderError CoinFluctuation
  unfolding request_periods
  get_fluctuation_data iso_day get start_date end_date base codes =
      let url : String → String = λ code. join "" (
        "https://api-historical.exrates.coinapi.io/v1/exchangerate/"
        ∷ base
        ∷ "/"
        ∷ code
        ∷ "/history?period_id=1DAY&time_start="
        ∷ iso_day start_date
        ∷ "&time_end="
        ∷ iso_day end_date
        ∷ []) in
      request_periods get url (codes_or_all codes) >>= (λ entries.
        (ok (record {
          base_currency = base;
          start_date = start_date;
          end_date = end_date;
          rates = from_entries entries;
        })))
