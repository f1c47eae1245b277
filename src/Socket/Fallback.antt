-- ===== src/Socket/Fallback.antt =====
-- coin-api/mock/coin-api-socket-mock.service.ts, which external.module.ts provides as the fallback socket: an interval that makes
-- up rates. `Math.random` is a sequence of numbers, and an rxjs interval that has been subscribed to is its number.
pub mod Intervals
use exchange_watch.Base.{
  ℕ, suc, ◌+◌, Bool, true, not, Option, none, some, String, str_eq, List, [], ◌∷◌, filter, any,
  ◌==◌, if◌then◌else◌,
}
use exchange_watch.Numbers.{Numbers}
use exchange_watch.Socket.{SocketService}
use exchange_watch.Socket.CoinApi.{LatestRateEvent}
use exchange_watch.ExchangeRate.Constants.{support_currency_list}

-- `baseCurrency`
abbrev pub base_currency : String
base_currency = "KRW"

module _ (N : Numbers) where
  open N use {Num}

  -- A number of thousandths.
  abbrev thousandths : ℕ → Num
  thousandths n = N.div (N.int n) (N.int 1000)

  -- `fluctuationRange`
  abbrev fluctuation_range : Num
  fluctuation_range = thousandths 5

  -- `CoinApiSocketMockService`; with the intervals that run, how many there have been, and the events, newest first.
  pub record StandIn : Type 0 where
    pub subscription : Option ℕ
    pub initial_rates : List (String × Num)
    pub running : List ℕ
    pub made : ℕ
    pub emitted : List (LatestRateEvent Num)

  -- The loop of the constructor over the supported currencies.
  abbrev first_rates : (ℕ → Num) → ℕ → List String → List (String × Num)
  first_rates random i [] = []
  first_rates random i (currency ∷ rest) =
      let others = first_rates random (suc i) rest in
      if str_eq currency base_currency
      then others
      else (currency, N.add (thousandths 1) (N.mul (random i) (thousandths 9))) ∷ others

  -- The constructor.
  abbrev pub init : (ℕ → Num) → StandIn
  init random = record {
    subscription = none;
    initial_rates = first_rates random 0 support_currency_list;
    running = [];
    made = 0;
    emitted = [];
  }

  -- `newRate`
  abbrev new_rate : Num → Num → Num
  new_rate random base_rate =
      N.add base_rate (
        N.mul base_rate
          (N.sub (N.mul (N.mul random fluctuation_range) (N.int 2)) fluctuation_range))

  abbrev pub new_rates : (ℕ → Num) → ℕ → List (String × Num) → List (String × Num)
  new_rates random i [] = []
  new_rates random i ((code, rate) ∷ rest) =
      (code, new_rate (random i) rate) ∷ new_rates random (suc i) rest

  abbrev pub emit_all :
      ℕ → List (String × Num) → List (LatestRateEvent Num) → List (LatestRateEvent Num)
  emit_all now [] emitted = emitted
  emit_all now ((code, rate) ∷ rest) emitted = emit_all now rest (
      record { timestamp = now; base_currency = base_currency; currency_code = code; rate = rate }
      ∷ emitted)

  -- The callback of the interval.
  unfoldable pub fluctuate : ℕ → (ℕ → Num) → StandIn → StandIn
  fluctuate now random m =
      let rates = new_rates random 0 m.initial_rates in
      record m { initial_rates = rates; emitted = emit_all now rates m.emitted }

  -- An interval fires, if it runs.
  unfoldable pub fire : ℕ → ℕ → (ℕ → Num) → StandIn → StandIn
  unfolding fluctuate
  fire id now random m = if any (◌==◌ id) m.running then fluctuate now random m else m

  -- `connect`
  unfoldable pub connect : StandIn → StandIn
  connect m = record m {
    subscription = some m.made;
    running = m.made ∷ m.running;
    made = suc m.made;
  }

  abbrev unsubscribed : Option ℕ → List ℕ → List ℕ
  unsubscribed none running = running
  unsubscribed (some id) running = filter (λ i. not (i == id)) running

  -- `disconnect`
  unfoldable pub disconnect : StandIn → StandIn
  disconnect m = record m { subscription = none; running = unsubscribed m.subscription m.running }

  -- `isHealthy`
  unfoldable pub is_healthy : ℕ → StandIn → Bool
  is_healthy now m = true

  -- The service as the manager sees it.
  abbrev pub stand_in : SocketService
  stand_in = record {
    State = StandIn;
    connect = connect;
    disconnect = disconnect;
    is_healthy = is_healthy;
  }
