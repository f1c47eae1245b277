-- ===== src/Socket/Manager/Tests.antt =====
-- Runs and instances of the manager's theorems, over services that are up or down.
use exchange_watch.Base.{◌≤◌, ◌≡◌, refl, Bool, true, false, some, List, [], ◌∷◌}
use exchange_watch.Socket.{SocketService}
use exchange_watch.Socket.Manager.{
  Manager, Event, Service, disconnect, check_health, step, run, connect, is_healthy,
}
use exchange_watch.Socket.Manager.Failover.{run-stage-le, disconnect_is_final, stage}
use exchange_watch.Socket.Manager.StandIn.{run-stays}
use exchange_watch.Socket.Fallback.{stand_in, init as first}
use exchange_watch.Numbers.Unary.{unary_numbers}

abbrev switch : SocketService
switch = record {
  State = Bool;
  connect = λ _. true;
  disconnect = λ _. false;
  is_healthy = λ now s. s;
}

abbrev started : Manager switch switch
started = record {
  primary = true;
  secondary = false;
  active_service = some Service.primary_service;
  health_check_interval = true;
}

abbrev failing : Manager switch switch
failing = record started { primary = false }

abbrev history : List (Event switch switch)
history = Event.services_move false false ∷ Event.health_check 10 ∷ Event.connects ∷ []

runs : run started history ≡ record {
  primary = false;
  secondary = true;
  active_service = some Service.secondary_service;
  health_check_interval = true;
}
unfolding run step check_health connect
runs = refl

run-stage-le_example : stage started.active_service ≤ stage (run started history).active_service
run-stage-le_example = run-stage-le started history

disconnect_is_final_example :
    ((run (disconnect started) (Event.connects ∷ Event.health_check 10 ∷ [])).primary
      ≡ (disconnect started).primary)
    × ((run (disconnect started) (Event.connects ∷ Event.health_check 10 ∷ [])).secondary
        ≡ (disconnect started).secondary)
disconnect_is_final_example =
    disconnect_is_final started (Event.connects ∷ Event.health_check 10 ∷ []) (tt, (tt, tt))

abbrev failed_over : Manager switch (stand_in unary_numbers)
failed_over = record {
  primary = false;
  secondary = first unary_numbers (λ i. i);
  active_service = some Service.secondary_service;
  health_check_interval = true;
}

abbrev later_calls : List (Event switch (stand_in unary_numbers))
later_calls = Event.health_check 10 ∷ Event.connects ∷ Event.health_check 20 ∷ []

run-stays_example :
    ((run failed_over later_calls).active_service ≡ some Service.secondary_service)
    × ((run failed_over later_calls).primary ≡ false)
    × (is_healthy 30 (run failed_over later_calls) ≡ true)
run-stays_example =
    run-stays switch unary_numbers 30 failed_over later_calls (tt, (tt, (tt, tt))) refl
