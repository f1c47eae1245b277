-- ===== src/Socket/CoinApi/Tests.antt =====
-- Runs and instances of the theorems on CoinAPI's socket; a rate is a number here.
use exchange_watch.Base.{ℕ, ◌+◌, ◌-◌, ◌≤◌, ◌≡◌, refl, true, false, some, List, [], ◌∷◌, arith}
use exchange_watch.Socket.CoinApi.{
  CoinApi, Event, Message, ReadyState, step, run, is_healthy, max_connection_retries_count,
}
use exchange_watch.Socket.CoinApi.Retries.{run-sockets-le}
use exchange_watch.Socket.CoinApi.Quiet.{disconnect_stays, error_never_reconnects}

abbrev connected : CoinApi ℕ
connected = record {
  ws = some (record { ready_state = ReadyState.open_state; listening = true });
  last_heart_beat = some 100;
  connection_retries_count = 1;
  reconnect_timeout = false;
  sockets = 1;
  emitted = [];
}

-- The network drops the connection twice.
abbrev drops : List (Event ℕ)
drops =
    Event.close 1006
    ∷ Event.timer
    ∷ Event.close 1006
    ∷ Event.timer
    ∷ Event.close 1006
    ∷ Event.timer
    ∷ []

abbrev rates : List (Event ℕ)
rates =
    Event.message 5 (Message.exrate 4 "KRW" "USD" 7)
    ∷ Event.message 6 (Message.exrate 4 "USD" "KRW" 7)
    ∷ Event.ready ReadyState.closed
    ∷ []

two_more : (run ReadyState.closing connected drops).sockets ≡ 3
unfolding run step
two_more = refl

run-sockets-le_example :
    (run ReadyState.closing connected drops).sockets ≤ 1 + (max_connection_retries_count - 1)
run-sockets-le_example = run-sockets-le ReadyState.closing connected drops refl (omega arith)

disconnect_stays_example :
    ((run ReadyState.closing (step ReadyState.closing connected Event.disconnects) rates).sockets
      ≡ 1)
    × ((run ReadyState.closing (step ReadyState.closing connected Event.disconnects) rates).emitted
        ≡ [])
    × (is_healthy 110
          (run ReadyState.closing (step ReadyState.closing connected Event.disconnects) rates)
        ≡ false)
disconnect_stays_example = disconnect_stays ReadyState.closing connected rates 110 (omega arith)

error_never_reconnects_example :
    ((run ReadyState.closing (step ReadyState.closing connected Event.error) drops).sockets ≡ 1)
    × (is_healthy 110 (run ReadyState.closing (step ReadyState.closing connected Event.error) drops)
        ≡ false)
error_never_reconnects_example =
    error_never_reconnects ReadyState.closing connected drops 110 refl (omega arith)
