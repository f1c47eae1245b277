-- ===== src/Scheduling.antt =====
-- modules/scheduling/schedule-manager.service.ts: the daily aggregation, under a lock that the instances share.
pub mod Aggregation
pub mod Repeats
mod Tests
use exchange_watch.Base.{ℕ, Option, none, some, String, Result, ok, err}
use exchange_watch.Numbers.{Numbers}
use exchange_watch.Date.{Dayjs, get_yesterday}
use exchange_watch.Redis.{LockStore}
use exchange_watch.Redis.LockManager.{LockNames, run_with_lock}
use exchange_watch.ExchangeRate.Daily.{DailyTable}
use exchange_watch.ExchangeRate.Queries.{ChangeApi, QueryError, calculate_daily_rates}

-- The `ttl` of `runWithLock` where none is given, in seconds.
abbrev pub default_ttl : ℕ
default_ttl = 60

module _ (R : LockStore) (N : Numbers) (T : DailyTable N) (D : Dayjs) (api : ChangeApi N) where
  -- The task; an error is logged.
  unfoldable pub aggregate : ℕ → T.Db → T.Db
  aggregate today db =
      let yesterday = get_yesterday D today in
      elim (calculate_daily_rates N T api yesterday yesterday db) [ err e ↦ db | ok later ↦ later ]

  abbrev pub database_after : T.Db → Option T.Db → T.Db
  database_after db none = db
  database_after db (some later) = later

  -- The call of `runWithLock` for the daily aggregation, with a task that is awaited under the lock.
  unfoldable pub under_daily_lock :
      String → ℕ → (R.Db → Result QueryError T.Db × R.Db) → R.Db → Option T.Db × R.Db
  under_daily_lock lock_id now task redis =
      run_with_lock R lock_id LockNames.daily_aggregation task default_ttl now redis

  -- `runDailyAggregation`, at the time of the lock and the time of the task, with the database and the store that it leaves
  unfoldable pub run_daily_aggregation : String → ℕ → ℕ → R.Db → T.Db → T.Db × R.Db
  unfolding aggregate under_daily_lock
  run_daily_aggregation lock_id now today redis db =
      let task : R.Db → Result QueryError T.Db × R.Db = λ held. (ok (aggregate today db), held) in
      let (result, released) = under_daily_lock lock_id now task redis in
      (database_after db result, released)
