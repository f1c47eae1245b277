-- ===== src/Scheduling/Tests.antt =====
-- Instances of the theorems on the daily aggregation.
use exchange_watch.Base.{ℕ, ◌+◌, ◌*◌, ◌≡◌, refl, subst, String, none, some, List, [], ◌∷◌, arith}
use exchange_watch.Numbers.Unary.{unary_numbers}
use exchange_watch.Date.{ms_per_day}
use exchange_watch.Date.Tests.{unary_dayjs, unary_dayjs-InUtc}
use exchange_watch.Redis.Memory.{store}
use exchange_watch.Redis.LockManager.{LockNames, lock_name}
use exchange_watch.ExchangeRate.Daily.Memory.{memory}
use exchange_watch.ExchangeRate.Daily.{DailyTable}
use exchange_watch.ExchangeRate.Queries.{ChangeApi}
use exchange_watch.ExchangeRate.Queries.Repeats.{Within}
use exchange_watch.ExchangeRate.{FluctuationRate}
use exchange_watch.Scheduling.{aggregate, under_daily_lock, run_daily_aggregation}
use exchange_watch.Scheduling.Aggregation.{interrupted, run_daily_aggregation_lem}
use exchange_watch.Scheduling.Repeats.{aggregate-again}

abbrev daily : DailyTable unary_numbers
daily = memory unary_numbers

abbrev free_db : store.Db
unfolding store
free_db = λ _. none

abbrev usd : FluctuationRate unary_numbers
usd = record { start_rate = 5; end_rate = 6; change = 1; change_pct = 20 }

abbrev api : ChangeApi unary_numbers
api s e base codes = some (("USD", usd) ∷ [])

answered :
    (second : List (String × FluctuationRate unary_numbers))
    → some (("USD", usd) ∷ []) ≡ some second
    → Within unary_numbers (("USD", usd) ∷ []) second
answered second e =
    let same : ("USD", usd) ∷ [] ≡ second = cc in
    subst (Within unary_numbers (("USD", usd) ∷ [])) same (refl, tt)

abbrev empty : daily.Db
empty = []

abbrev today : ℕ
today = 2 * ms_per_day

run_daily_aggregation_example :
    ((run_daily_aggregation store unary_numbers daily unary_dayjs api "a" 500 today free_db empty).0
      ≡ aggregate store unary_numbers daily unary_dayjs api today empty)
    × (store.entry
          (run_daily_aggregation store unary_numbers daily unary_dayjs api "a" 500 today free_db
            empty).1
          (lock_name LockNames.daily_aggregation)
        ≡ none)
    × ((under_daily_lock store unary_numbers daily unary_dayjs api "a" 500
          (interrupted store unary_numbers daily unary_dayjs api "b" 900 1100 today today empty)
          free_db).0
        ≡ some (aggregate store unary_numbers daily unary_dayjs api today empty))
    × (store.entry
          (under_daily_lock store unary_numbers daily unary_dayjs api "a" 500
            (interrupted store unary_numbers daily unary_dayjs api "b" 900 1100 today today empty)
            free_db).1
          (lock_name LockNames.daily_aggregation)
        ≡ none)
unfolding store
run_daily_aggregation_example =
    run_daily_aggregation_lem store unary_numbers daily unary_dayjs api "a" "b" 500 today 900 1100
      today free_db empty refl (omega arith) (omega arith)

aggregate-again_example :
    daily.rows (
      aggregate store unary_numbers daily unary_dayjs api
        (today + 7200000)
        (aggregate store unary_numbers daily unary_dayjs api today empty))
    ≡ daily.rows (aggregate store unary_numbers daily unary_dayjs api today empty)
aggregate-again_example =
    aggregate-again store unary_numbers daily unary_dayjs unary_dayjs-InUtc api today
      (today + 7200000) (("USD", usd) ∷ []) empty (omega arith) (omega arith) refl (refl, tt)
      (λ second e. answered second e)
