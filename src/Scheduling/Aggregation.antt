-- ===== src/Scheduling/Aggregation.antt =====
-- Which instance aggregates.
use exchange_watch.Base.{
  ℕ, ◌+◌, ◌*◌, ◌<◌, ◌≡◌, refl, ◌∙◌, ap, Option, none, some, String, Result, ok, arith,
}
use exchange_watch.Numbers.{Numbers}
use exchange_watch.Date.{Dayjs}
use exchange_watch.Redis.{Lock, LockStore, alive}
use exchange_watch.Redis.LockManager.{
  LockNames, lock_name, or_null, run_with_lock_free, run_with_lock_taken,
}
use exchange_watch.ExchangeRate.Daily.{DailyTable}
use exchange_watch.ExchangeRate.Queries.{ChangeApi, QueryError}
use exchange_watch.Scheduling.{
  default_ttl, aggregate, database_after, under_daily_lock, run_daily_aggregation,
}

module _ (R : LockStore) (N : Numbers) (T : DailyTable N) (D : Dayjs) (api : ChangeApi N) where
  abbrev task_of : ℕ → T.Db → R.Db → Result QueryError T.Db × R.Db
  task_of today db held = (ok (aggregate R N T D api today db), held)

  -- A task during which the job of another instance starts twice, before and after the aggregation.
  unfoldable pub interrupted : String → ℕ → ℕ → ℕ → ℕ → T.Db → R.Db → Result QueryError T.Db × R.Db
  interrupted other before after today next_day db held =
      let (db1, held1) = run_daily_aggregation R N T D api other before next_day held db in
      let db2 = aggregate R N T D api today db1 in
      let (db3, held3) = run_daily_aggregation R N T D api other after next_day held1 db2 in
      (ok db3, held3)

  -- Where the lock is held for a minute from `now` on, another job does nothing.
  kept_out :
      (lock_id other : String) (now later today : ℕ) (held : R.Db) (db : T.Db)
      → R.entry held (lock_name LockNames.daily_aggregation)
        ≡ some (record { value = lock_id; expires = now + 60 * 1000 })
      → later < now + 60000
      → run_daily_aggregation R N T D api other later today held db ≡ (db, held)
  unfolding run_daily_aggregation under_daily_lock
  kept_out lock_id other now later today held db e lt =
      let job = LockNames.daily_aggregation in
      let l : Lock = record { value = lock_id; expires = now + 60 * 1000 } in
      let taken : alive later (R.entry held (lock_name job)) ≡ some l = rw e (ground (arith, lt)) in
      ap (λ (p : Option T.Db × R.Db). (database_after R N T D api db p.0, p.1))
        (run_with_lock_taken R other job (task_of today db) default_ttl later held l taken)

  interrupted_lem :
      (lock_id other : String) (now before after today next_day : ℕ) (held : R.Db) (db : T.Db)
      → R.entry held (lock_name LockNames.daily_aggregation)
        ≡ some (record { value = lock_id; expires = now + 60 * 1000 })
      → before < now + 60000
      → after < now + 60000
      → interrupted other before after today next_day db held
        ≡ (ok (aggregate R N T D api today db), held)
  unfolding interrupted
  interrupted_lem lock_id other now before after today next_day held db e b a =
      rw (interrupted, kept_out lock_id other now before next_day held db e b)
        (rw (kept_out lock_id other now after next_day held (aggregate R N T D api today db) e a)
          refl)

  -- Where the lock is free, an instance takes it, aggregates, and releases it. That stays so where, while its task runs, the
  -- job of another instance starts before and after the aggregation, less than a minute after the lock was taken: only the
  -- first instance aggregates, once.
  pub run_daily_aggregation_lem :
      (lock_id other : String) (now today before after next_day : ℕ) (redis : R.Db) (db : T.Db)
      → alive now (R.entry redis (lock_name LockNames.daily_aggregation)) ≡ none
      → before < now + 60000
      → after < now + 60000
      → ((run_daily_aggregation R N T D api lock_id now today redis db).0
          ≡ aggregate R N T D api today db)
        × (R.entry
              (run_daily_aggregation R N T D api lock_id now today redis db).1
              (lock_name LockNames.daily_aggregation)
            ≡ none)
        × ((under_daily_lock R N T D api lock_id now
              (interrupted other before after today next_day db)
              redis).0
            ≡ some (aggregate R N T D api today db))
        × (R.entry
              (under_daily_lock R N T D api lock_id now
                (interrupted other before after today next_day db)
                redis).1
              (lock_name LockNames.daily_aggregation)
            ≡ none)
  unfolding run_daily_aggregation under_daily_lock
  run_daily_aggregation_lem lock_id other now today before after next_day redis db free b a =
      let job = LockNames.daily_aggregation in
      let task = interrupted other before after today next_day db in
      let (_, _, r, z) =
        run_with_lock_free R lock_id job (task_of today db) default_ttl now redis free in
      let (held, e, s, y) = run_with_lock_free R lock_id job task default_ttl now redis free in
      let same = interrupted_lem lock_id other now before after today next_day held db e b a in
      (
        ap (database_after R N T D api db) r,
        z,
        s ∙ ap (λ (p : Result QueryError T.Db × R.Db). or_null (p.0)) same,
        y,
      )
