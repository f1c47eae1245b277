-- ===== src/Providers/Fixer.antt =====
-- fixer/fixer.service.ts
use exchange_watch.Base.{ℕ, Bool, Option, none, some, List, [], ◌∷◌, String, map, Result, ok, ◌>>=◌}
use exchange_watch.Numbers.{Numbers}
use exchange_watch.Strings.{join, from_entries}
use exchange_watch.Providers.{
  ProviderError, awaited, accepted, RatesResponse, FluctuationResponse, RawFluctuation,
}

module _ (N : Numbers) where
  -- interfaces/fixer-response.interface.ts
  pub record RateResponse : Type 0 where
    pub base : String
    pub date : ℕ
    pub rates : List (String × N.Num)

  pub record ChangeResponse : Type 0 where
    pub success : Bool
    pub start_date : ℕ
    pub end_date : ℕ
    pub base : String
    pub rates : List (String × RawFluctuation N)

  -- A base that is not given is printed as `undefined`.
  abbrev printed : Option String → String
  printed none = "undefined"
  printed (some s) = s

  module _ (fixer_api_url fixer_api_key : String) (iso_day : ℕ → String) where
    -- `getLatestRates`
    pub get_latest_rates :
        (String → Option RateResponse)
        → Option String
        → List String
        → Result ProviderError (RatesResponse N)
    get_latest_rates get base codes = do
      data' ← awaited (
          get (
            join "" (
              fixer_api_url
              ∷ "/latest?access_key="
              ∷ fixer_api_key
              ∷ "&base="
              ∷ printed base
              ∷ "&symbols="
              ∷ join "," codes
              ∷ [])))
      ok (record { base_currency = data'.base; date = data'.date; rates = data'.rates })

    -- `getFluctuationData`
    pub get_fluctuation_data :
        (String → Option ChangeResponse)
        → ℕ
        → ℕ
        → Option String
        → List String
        → Result ProviderError (FluctuationResponse N)
    get_fluctuation_data get start_date end_date base codes = do
      data' ← awaited (
          get (
            join "" (
              fixer_api_url
              ∷ "/fluctuation?access_key="
              ∷ fixer_api_key
              ∷ "&start_date="
              ∷ iso_day start_date
              ∷ "&end_date="
              ∷ iso_day end_date
              ∷ "&base="
              ∷ printed base
              ∷ "&symbols="
              ∷ join "," codes
              ∷ [])))
      accepted data'.success (record {
        base_currency = data'.base;
        start_date = data'.start_date;
        end_date = data'.end_date;
        rates = from_entries (
            map
              (λ (e : String × RawFluctuation N). (
                e.0,
                record {
                  start_rate = e.1.start_rate;
                  end_rate = e.1.end_rate;
                  change = e.1.change;
                  change_pct = e.1.change_pct;
                },
              ))
              data'.rates);
      })
