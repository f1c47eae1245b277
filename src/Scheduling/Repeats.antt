-- ===== src/Scheduling/Repeats.antt =====
-- A daily aggregation that runs again on the same day, on this instance or on another.
use exchange_watch.Base.{
  ℕ, ◌/◌, ◌≤◌, ◌≡◌, refl, sym, ap, subst, ◌∙◌, ok, err, some, Option-cases, inl, inr, String, List,
  arith,
}
use exchange_watch.Numbers.{Numbers}
use exchange_watch.Date.{ms_per_day, start_of_day, Dayjs, InUtc, get_yesterday}
use exchange_watch.Date.Market.{get_yesterday-eq}
use exchange_watch.Redis.{LockStore}
use exchange_watch.ExchangeRate.{FluctuationRate}
use exchange_watch.ExchangeRate.Constants.{support_currency_list}
use exchange_watch.ExchangeRate.Daily.{DailyTable}
use exchange_watch.ExchangeRate.Queries.{ChangeApi, QueryError, calculate_daily_rates}
use exchange_watch.ExchangeRate.Queries.Repeats.{AllFit, Within, calculate_again, calculate-fails}
use exchange_watch.Scheduling.{aggregate}

module _ (R : LockStore) (N : Numbers) (T : DailyTable N) (D : Dayjs) (utc : InUtc D)
    (api : ChangeApi N) where
  yesterday-same :
      (today again : ℕ)
      → ms_per_day ≤ today
      → again / ms_per_day ≡ today / ms_per_day
      → start_of_day (get_yesterday D again) ≡ start_of_day (get_yesterday D today)
  yesterday-same today again le e =
      rw (get_yesterday-eq D utc today le, get_yesterday-eq D utc again (omega (arith, e)))
        (omega (arith, e))

  aggregate-fails :
      (today : ℕ) (db : T.Db) (e : QueryError)
      → calculate_daily_rates N T api (get_yesterday D today) (get_yesterday D today) db ≡ err e
      → aggregate R N T D api today db ≡ db
  unfolding aggregate
  aggregate-fails today db e h = rw (aggregate, h) refl

  aggregate-saves :
      (today : ℕ) (db later : T.Db)
      → calculate_daily_rates N T api (get_yesterday D today) (get_yesterday D today) db ≡ ok later
      → aggregate R N T D api today db ≡ later
  unfolding aggregate
  aggregate-saves today db later h = rw (aggregate, h) refl

  -- For dayjs in UTC, after the first day of 1970: where the aggregation has run, the API having answered with rates that the
  -- table's columns can hold, and runs again at any time of the same UTC day, and the API fails or has rates of no other currency than before, the second run leaves the rows
  -- of daily rates as the first has left them.
  pub aggregate-again :
      (today again : ℕ) (first : List (String × FluctuationRate N)) (db : T.Db)
      → ms_per_day ≤ today
      → again / ms_per_day ≡ today / ms_per_day
      → api (get_yesterday D today) (get_yesterday D today) "KRW" support_currency_list ≡ some first
      → AllFit N (get_yesterday D today) first
      → ((second : List (String × FluctuationRate N))
          → api (get_yesterday D again) (get_yesterday D again) "KRW" support_currency_list
            ≡ some second
          → Within N first second)
      → T.rows (aggregate R N T D api again (aggregate R N T D api today db))
        ≡ T.rows (aggregate R N T D api today db)
  aggregate-again today again first db le e f fit w =
      let day = get_yesterday D today in
      let next_day = get_yesterday D again in
      elim (Option-cases (api next_day next_day "KRW" support_currency_list)) [
        | inl h ↦ ap T.rows (aggregate-fails again _ _ (calculate-fails N T api next_day _ h))
        | inr (second, h) ↦
            let (later, a, twice) =
              calculate_again N T api day next_day first second db (yesterday-same today again le e)
                f h fit (w second h) in
            subst (λ x. T.rows (aggregate R N T D api again x) ≡ T.rows x)
              (sym (aggregate-saves today db later a))
              (elim twice [
                | inl b ↦ ap T.rows (aggregate-fails again later _ b)
                | inr (after, b, c) ↦ ap T.rows (aggregate-saves again later after b) ∙ c
              ])
      ]
