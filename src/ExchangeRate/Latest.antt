-- ===== src/ExchangeRate/Latest.antt =====
-- exchange-rate.service.ts: the latest rates in Redis, at the start and for each rate that arrives.
pub mod Start
pub mod Updates
use exchange_watch.Base.{
  ℕ, ◌≡◌, Bool, true, false, not, ◌&&◌, ◌||◌, Option, none, some, String, str_eq, List, [], ◌∷◌,
  ◌++◌, map, filter, Result, ok, err, if◌then◌else◌,
}
use exchange_watch.Numbers.{Numbers, is_truthy}
use exchange_watch.Date.{Dayjs, is_new_trading_day, get_last_market_day}
use exchange_watch.Redis.Cache.{Client}
use exchange_watch.ExchangeRate.Constants.{support_currency_list, lookup, Threshold, threshold_of}
use exchange_watch.ExchangeRate.{
  LatestRateHash, UpdateRate, CreateRate, FluctuationRate, get_latest_rate, set_latest_rate,
  update_latest_rate, update_health_check, update_channel,
}

-- `getFluctuationData(start, end, base, codes)`, with `none` where it throws.
abbrev pub FluctuationApi : Numbers → Type 0
FluctuationApi N = ℕ → ℕ → String → List String → Option (List (String × FluctuationRate N))

pub data ServiceError : Type 0 where
  api_failed : ServiceError

-- What the service writes: Redis, the messages published, and the raw records.
pub record World (N : Numbers) (C : Client) : Type 0 where
  pub db : C.Db
  pub published : List (String × UpdateRate N)
  pub raws : List (CreateRate N)

-- The supported currencies but the base.
unfoldable pub target_currencies : List String
target_currencies = filter (λ code. not (str_eq code "KRW")) support_currency_list

module _ (N : Numbers) (C : Client) where
  open N use {Num}

  -- The three fields that a stored rate must have.
  abbrev pub is_complete : List (Option String) → Bool
  is_complete [] = false
  is_complete (a ∷ []) = false
  is_complete (a ∷ b ∷ []) = false
  is_complete (a ∷ b ∷ c ∷ rest) = is_truthy a && (is_truthy b && is_truthy c)

  abbrev pub stored_fields : List String
  stored_fields = "rate" ∷ "timestamp" ∷ "openRate" ∷ []

  -- `checkMissingCurrencies`
  unfoldable pub check_missing_currencies : List String → C.Db → List String
  unfolding get_latest_rate
  check_missing_currencies [] db = []
  check_missing_currencies (code ∷ codes) db =
      let rest = check_missing_currencies codes db in
      if is_complete (get_latest_rate C "KRW" code stored_fields db) then rest else code ∷ rest

  -- The loop of `fetchAllMissingCurrencies` that stores the data.
  pub store_fetched : List (String × FluctuationRate N) → ℕ → List String → C.Db → C.Db
  unfolding set_latest_rate
  store_fetched rates timestamp [] db = db
  store_fetched rates timestamp (code ∷ codes) db = elim (lookup code rates) [
    | none ↦ store_fetched rates timestamp codes db
    | some r ↦ store_fetched rates timestamp codes (
        set_latest_rate C N code
          (record {
            rate = r.end_rate;
            change = r.change;
            change_pct = r.change_pct;
            timestamp = timestamp;
            open_rate = r.start_rate;
          })
          db)
  ]

  module _ (D : Dayjs) (api : FluctuationApi N) where
    -- `fetchAllMissingCurrencies`
    pub fetch_all_missing_currencies : List String → ℕ → C.Db → Result ServiceError C.Db
    unfolding store_fetched
    fetch_all_missing_currencies missing now db =
        elim (api (get_last_market_day D now) now "KRW" missing) [
          | none ↦ err api_failed
          | some rates ↦ ok (store_fetched rates now missing db)
        ]

    -- `initializeAllCurrencyData`, on the currencies that are missing
    pub initialize_missing : List String → ℕ → C.Db → Result ServiceError C.Db
    unfolding fetch_all_missing_currencies
    initialize_missing [] now db = ok db
    initialize_missing (code ∷ codes) now db = fetch_all_missing_currencies (code ∷ codes) now db

    -- `initializeAllCurrencyData`
    pub initialize_all_currency_data : ℕ → C.Db → Result ServiceError C.Db
    unfolding initialize_missing check_missing_currencies target_currencies
    initialize_all_currency_data now db =
        initialize_missing (check_missing_currencies target_currencies db) now db

    -- `Math.max(thresholdsConfig.minAbs, Math.abs(openRate * (thresholdsConfig.pct / 100)))`
    unfoldable pub final_threshold : String → Num → Num
    final_threshold code open_rate =
        let config = threshold_of code in
        N.max (N.parse config.min_abs)
          (N.abs (N.mul open_rate (N.div (N.parse config.pct) (N.int 100))))

    -- `handleLatestRateUpdate` from its step 3 on.
    unfoldable pub update_in_day : String → String → Num → ℕ → Num → World N C → World N C
    unfolding final_threshold update_latest_rate
    update_in_day base code rate timestamp open_rate w =
        let change = N.sub rate open_rate in
        let change_pct = N.mul (N.div change open_rate) (N.int 100) in
        let raws =
          w.raws ++ record { base_currency = base; currency_code = code; rate = rate } ∷ [] in
        if N.lt (final_threshold code open_rate) (N.abs change)
        then record {
          db =
              update_latest_rate C "KRW" code
                (("rate", N.print rate)
                  ∷ ("change", N.print change)
                  ∷ ("changePct", N.print change_pct)
                  ∷ ("timestamp", N.print_int timestamp)
                  ∷ [])
                w.db;
          published =
              w.published
              ++ (
                update_channel base code,
                record {
                  base_currency = base;
                  currency_code = code;
                  hash = record {
                    rate = rate;
                    change = change;
                    change_pct = change_pct;
                    timestamp = timestamp;
                    open_rate = open_rate;
                  };
                },
              )
                ∷ [];
          raws = raws;
        }
        else record {
          db = update_latest_rate C base code (("timestamp", N.print_int timestamp) ∷ []) w.db;
          published = w.published;
          raws = raws;
        }

    -- The branches of `handleLatestRateUpdate` on what is stored.
    pub update_stored :
        (ℕ → String)
        → String
        → String
        → Num
        → ℕ
        → ℕ
        → List (Option String)
        → World N C
        → Result ServiceError (World N C)
    unfolding fetch_all_missing_currencies set_latest_rate update_health_check update_in_day
    update_stored iso base code rate timestamp now
          (some stored_rate ∷ some stored_timestamp ∷ some stored_open ∷ rest) w =
        if is_complete (some stored_rate ∷ some stored_timestamp ∷ some stored_open ∷ [])
        then if is_new_trading_day D timestamp (N.parse_int stored_timestamp)
          then ok (record w {
            db = update_health_check C iso base now (
                set_latest_rate C N code
                  (record {
                    rate = rate;
                    change = N.sub rate (N.parse stored_rate);
                    change_pct = N.int 0;
                    timestamp = timestamp;
                    open_rate = N.parse stored_rate;
                  })
                  w.db);
          })
          else ok (update_in_day base code rate timestamp (N.parse stored_open) w)
        else elim (fetch_all_missing_currencies support_currency_list now w.db) [
          | err e ↦ err e
          | ok db ↦ ok (record w { db = db })
        ]
    update_stored iso base code rate timestamp now stored w =
        elim (fetch_all_missing_currencies support_currency_list now w.db) [
          | err e ↦ err e
          | ok db ↦ ok (record w { db = db })
        ]

    -- `handleLatestRateUpdate`; the write that a new trading day does not await is issued before the health check.
    pub handle_latest_rate_update :
        (ℕ → String) → String → String → Num → ℕ → ℕ → World N C → Result ServiceError (World N C)
    unfolding get_latest_rate update_stored
    handle_latest_rate_update iso base code latest_rate latest_timestamp now w =
        update_stored iso base code (N.to_fixed_6 latest_rate) latest_timestamp now
          (get_latest_rate C "KRW" code stored_fields w.db) w

    -- latest-rate.listener.ts
    pub handle_latest_rate_event :
        (ℕ → String) → String → String → Num → ℕ → ℕ → World N C → Result ServiceError (World N C)
    unfolding update_health_check handle_latest_rate_update
    handle_latest_rate_event iso base code rate timestamp now w =
        handle_latest_rate_update iso base code rate timestamp now
          (record w { db = update_health_check C iso base now w.db })
