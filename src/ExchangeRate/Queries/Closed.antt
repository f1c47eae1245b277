-- ===== src/ExchangeRate/Queries/Closed.antt =====
-- The current rates while the market is closed.
use exchange_watch.Base.{
  ℕ, ◌≡◌, refl, subst, false, String, str_eq, List, [], ◌∷◌, filter, Result, ok, err, ◌>>=◌, any,
  All, Bool-cases, inl, inr, arith,
}
use exchange_watch.Numbers.{Numbers}
use exchange_watch.Date.{Dayjs, is_market_open, get_last_market_day}
use exchange_watch.Redis.Cache.{Client}
use exchange_watch.ExchangeRate.Daily.{DailyRate, DailyTable}
use exchange_watch.ExchangeRate.{get_latest_rate_health_check}
use exchange_watch.ExchangeRate.Queries.{
  QueryError, RateDetail, LatestApi, ChangeApi, put, from_cache, from_snapshots, cached_detail,
  ensure_snapshots, respond, is_cache_hit, get_currency_exchange_rates, target_codes,
}

All-put :
    {A : Type 0} (P : A → Type 0) (k : String) (a : A) (xs : List (String × A))
    → P a
    → All (λ (e : String × A). P (e.1)) xs
    → All (λ (e : String × A). P (e.1)) (put k a xs)
All-put P k a [] h t = (h, t)
All-put P k a ((j, b) ∷ xs) h t = ground (arith, All-put P k a xs h t.1)

module _ (N : Numbers) where
  -- Neither a change nor a percentage of change.
  pub record NoChange (d : RateDetail N) : Type 0 where
    pub change : d.day_change ≡ N.int 0
    pub percent : d.day_change_percent ≡ N.int 0

  abbrev pub NoChanges : List (String × RateDetail N) → Type 0
  NoChanges details = All (λ (e : String × RateDetail N). NoChange (e.1)) details

  cache-NoChanges :
      (upper : String → String) (C : Client) (codes : List String) (db : C.Db)
      → NoChanges (from_cache N upper C false codes db)
  unfolding from_cache cached_detail
  cache-NoChanges upper C [] db = tt
  cache-NoChanges upper C (code ∷ codes) db =
      All-put NoChange code _ (from_cache N upper C false codes db)
        (record { change = refl; percent = refl }) (cache-NoChanges upper C codes db)

  snapshots-NoChanges :
      (upper : String → String) (rs : List (DailyRate N)) → NoChanges (from_snapshots N upper rs)
  unfolding from_snapshots
  snapshots-NoChanges upper [] = tt
  snapshots-NoChanges upper (r ∷ rs) =
      All-put NoChange (r.currency_code) _ (from_snapshots N upper rs)
        (record { change = refl; percent = refl }) (snapshots-NoChanges upper rs)

  module _ (T : DailyTable N) (C : Client) (D : Dayjs) (upper : String → String)
      (parse_date : String → ℕ) (latest : LatestApi N) (change : ChangeApi N) (base : String)
      (codes : List String) (now : ℕ) (redis : C.Db) (db : T.Db) where
    of_found :
        (found : Result QueryError (List (DailyRate N) × T.Db)) (targets : List String)
        (details : List (String × RateDetail N)) (later : T.Db)
        → (found >>= respond N T upper targets) ≡ ok (details, later)
        → NoChanges details
    unfolding respond
    of_found (err x) targets details later e = cc
    of_found (ok f) targets details later e = subst NoChanges (ground (arith, e)) (
        snapshots-NoChanges upper
          (filter (λ (r : DailyRate N). any (str_eq r.currency_code) targets) (f.0)))

    -- While the market is closed, every rate that is answered, from the cache or from the snapshots, has a change and a
    -- percentage of 0.
    pub closed_market_lem :
        (details : List (String × RateDetail N)) (later : T.Db)
        → is_market_open now ≡ false
        → get_currency_exchange_rates N T C D upper parse_date latest change base codes now redis db
          ≡ ok (details, later)
        → NoChanges details
    unfolding get_currency_exchange_rates
    closed_market_lem details later closed e =
        elim (Bool-cases
          (is_cache_hit now (get_latest_rate_health_check C parse_date "KRW" now redis))) [
            | inl hit ↦
                subst NoChanges (ground (arith, e, hit, closed))
                  (cache-NoChanges upper C (target_codes base codes) redis)
            | inr miss ↦
                of_found (ensure_snapshots N T D change base (get_last_market_day D now) db)
                  (target_codes base codes) details later (ground (arith, e, miss, closed))
          ]
