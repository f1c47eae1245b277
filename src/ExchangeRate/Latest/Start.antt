-- ===== src/ExchangeRate/Latest/Start.antt =====
-- What the initialisation leaves in Redis.
use exchange_watch.Base.{
  ℕ, ◌≡◌, ◌≢◌, subst, refl, sym, Bool, true, ◌&&◌, none, some, String, str_eq, eq_iff, List, [],
  ◌∷◌, ok, err, if◌then◌else◌, All, inl, inr, Bool-cases, Option-cases, arith, if_of_true,
  if_of_false, is_some,
}
use exchange_watch.Numbers.{Numbers, is_truthy}
use exchange_watch.Date.{Dayjs, get_last_market_day}
use exchange_watch.Redis.Cache.{Client, hset, hmget, written}
use exchange_watch.ExchangeRate.Constants.{lookup}
use exchange_watch.ExchangeRate.{
  LatestRateHash, FluctuationRate, hash_fields, rate_key, get_latest_rate, set_latest_rate,
}
use exchange_watch.ExchangeRate.Latest.{
  api_failed, FluctuationApi, is_complete, stored_fields, check_missing_currencies, store_fetched,
  fetch_all_missing_currencies, initialize_all_currency_data, initialize_missing, target_currencies,
}

module _ (N : Numbers) (C : Client) where
  -- Whether a currency has the three fields.
  abbrev pub complete : String → C.Db → Bool
  complete code db = is_complete N C (get_latest_rate C "KRW" code (stored_fields N C) db)

  -- The same by the fields.
  abbrev truthy_at : String → C.Db → String → Bool
  truthy_at code db f = is_truthy (C.field db (rate_key "KRW" code) f)

  complete-eq :
      (code : String) (db : C.Db)
      → complete code db ≡ (
          truthy_at code db "rate"
          && (truthy_at code db "timestamp" && truthy_at code db "openRate"))
  unfolding get_latest_rate hmget
  complete-eq code db = rw (C.hmget_fields (rate_key "KRW" code) (stored_fields N C) db) refl

  truthy-set :
      (code c : String) (h : LatestRateHash N) (db : C.Db) (f : String)
      → is_truthy (written (hash_fields N h) f (C.field db (rate_key "KRW" c) f)) ≡ true
      → truthy_at c (set_latest_rate C N code h db) f
        ≡ (if str_eq (rate_key "KRW" code) (rate_key "KRW" c) then true else truthy_at c db f)
  unfolding set_latest_rate hset
  truthy-set code c h db f e =
      rw (C.hset_field (rate_key "KRW" code) (hash_fields N h) db (rate_key "KRW" c) f)
        (elim (Bool-cases (str_eq (rate_key "KRW" code) (rate_key "KRW" c))) [
          | inl k ↦ rw (k, e)
          | inr k ↦ rw k
        ])

  complete-set :
      (code c : String) (h : LatestRateHash N) (db : C.Db)
      → complete c (set_latest_rate C N code h db)
        ≡ (if str_eq (rate_key "KRW" code) (rate_key "KRW" c) then true else complete c db)
  complete-set code c h db =
      let a = truthy-set code c h db "rate" (rw (N.print_some h.rate) refl) in
      let b = truthy-set code c h db "timestamp" (rw (N.print_int_some h.timestamp) refl) in
      let d = truthy-set code c h db "openRate" (rw (N.print_some h.open_rate) refl) in
      ground (arith, complete-eq c (set_latest_rate C N code h db), complete-eq c db, a, b, d)

  complete-keep :
      (rates : List (String × FluctuationRate N)) (t : ℕ) (codes : List String) (c : String)
      (db : C.Db)
      → complete c db ≡ true
      → complete c (store_fetched N C rates t codes db) ≡ true
  unfolding store_fetched
  complete-keep rates t [] c db e = e
  complete-keep rates t (code ∷ codes) c db e = elim (Option-cases (lookup code rates)) [
    | inl h ↦ rw (h, store_fetched) (complete-keep rates t codes c db e)
    | inr (r, h) ↦
        rw (h, store_fetched)
          (complete-keep rates t codes c _ (rw (complete-set code c _ db, e) (ground arith)))
  ]

  stored-one :
      (rates : List (String × FluctuationRate N)) (t : ℕ) (code : String) (codes : List String)
      (db : C.Db) (r : FluctuationRate N)
      → lookup code rates ≡ some r
      → store_fetched N C rates t (code ∷ codes) db
        ≡ store_fetched N C rates t codes (
            set_latest_rate C N code
              (record {
                rate = r.end_rate;
                change = r.change;
                change_pct = r.change_pct;
                timestamp = t;
                open_rate = r.start_rate;
              })
              db)
  unfolding store_fetched
  stored-one rates t code codes db r h = rw (h, store_fetched) refl

  complete_of_fetched :
      (rates : List (String × FluctuationRate N)) (t : ℕ) (codes : List String) (db : C.Db)
      → All (λ c. is_some (lookup c rates) ≡ true) codes
      → All (λ c. complete c (store_fetched N C rates t codes db) ≡ true) codes
  unfolding store_fetched
  complete_of_fetched rates t [] db a = tt
  complete_of_fetched rates t (code ∷ codes) db a = elim (Option-cases (lookup code rates)) [
    | inl h ↦ cc (a.0, h)
    | inr (r, h) ↦
        let same = (eq_iff (rate_key "KRW" code) (rate_key "KRW" code)).1 refl in
        subst (λ d. All (λ c. complete c d ≡ true) (code ∷ codes))
          (sym (stored-one rates t code codes db r h))
          (
            complete-keep rates t codes code _ (rw (complete-set code code _ db, same) refl),
            complete_of_fetched rates t codes _ a.1,
          )
  ]

  none_missing :
      (codes : List String) (db : C.Db)
      → All (λ c. complete c db ≡ true) codes
      → check_missing_currencies N C codes db ≡ []
  unfolding check_missing_currencies
  none_missing [] db a = refl
  none_missing (c ∷ codes) db a = rw (a.0) (none_missing codes db a.1)

  all_complete :
      (codes : List String) (db later : C.Db)
      → ((c : String) → complete c db ≡ true → complete c later ≡ true)
      → All (λ c. complete c later ≡ true) (check_missing_currencies N C codes db)
      → All (λ c. complete c later ≡ true) codes
  unfolding check_missing_currencies
  all_complete [] db later keep a = tt
  all_complete (c ∷ codes) db later keep a = elim (Bool-cases (complete c db)) [
    | inl h ↦ (
      keep c h,
      all_complete codes db later keep
          (subst (All (λ d. complete d later ≡ true)) (if_of_true _ _ _ h) a),
    )
    | inr h ↦
        let b = subst (All (λ d. complete d later ≡ true)) (if_of_false _ _ _ h) a in
        (b.0, all_complete codes db later keep b.1)
  ]

  module _ (D : Dayjs) (api : FluctuationApi N) where
    missing-completes :
        (missing : List String) (now : ℕ) (db : C.Db) (rates : List (String × FluctuationRate N))
        → api (get_last_market_day D now) now "KRW" missing ≡ some rates
        → All (λ c. is_some (lookup c rates) ≡ true) missing
        → (later : C.Db) × (initialize_missing N C D api missing now db ≡ ok later)
          × ((c : String) → complete c db ≡ true → complete c later ≡ true)
          × All (λ c. complete c later ≡ true) missing
    unfolding initialize_missing fetch_all_missing_currencies
    missing-completes [] now db rates e a = (db, refl, (λ c h. h), tt)
    missing-completes (c ∷ cs) now db rates e a = (
      store_fetched N C rates now (c ∷ cs) db,
      rw (e, fetch_all_missing_currencies) refl,
      (λ d. complete-keep rates now (c ∷ cs) d db),
      complete_of_fetched rates now (c ∷ cs) db a,
    )

    missing-fails :
        (missing : List String) (now : ℕ) (db : C.Db)
        → missing ≢ []
        → api (get_last_market_day D now) now "KRW" missing ≡ none
        → initialize_missing N C D api missing now db ≡ err api_failed
    unfolding initialize_missing fetch_all_missing_currencies
    missing-fails [] now db ne e = absurd (ne refl)
    missing-fails (c ∷ cs) now db ne e = rw (e, fetch_all_missing_currencies) refl

    -- The initialisation, where the API answers for every currency that it is asked for: it succeeds, and afterwards no
    -- supported currency but the base is missing.
    pub initialize_completes :
        (now : ℕ) (db : C.Db) (rates : List (String × FluctuationRate N))
        → api
            (get_last_market_day D now)
            now
            "KRW"
            (check_missing_currencies N C target_currencies db)
          ≡ some rates
        → All
            (λ c. is_some (lookup c rates) ≡ true)
            (check_missing_currencies N C target_currencies db)
        → (later : C.Db) × (initialize_all_currency_data N C D api now db ≡ ok later)
          × (check_missing_currencies N C target_currencies later ≡ [])
    unfolding initialize_all_currency_data
    initialize_completes now db rates e a =
        let missing = check_missing_currencies N C target_currencies db in
        let (later, f, keep, full) = missing-completes missing now db rates e a in
        (
          later,
          f,
          none_missing target_currencies later (all_complete target_currencies db later keep full),
        )

    -- Where the API fails for the currencies that are missing, the initialisation fails.
    pub initialize_fails :
        (now : ℕ) (db : C.Db)
        → check_missing_currencies N C target_currencies db ≢ []
        → api
            (get_last_market_day D now)
            now
            "KRW"
            (check_missing_currencies N C target_currencies db)
          ≡ none
        → initialize_all_currency_data N C D api now db ≡ err api_failed
    unfolding initialize_all_currency_data
    initialize_fails now db ne e =
        missing-fails (check_missing_currencies N C target_currencies db) now db ne e
