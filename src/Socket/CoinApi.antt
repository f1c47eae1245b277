-- ===== src/Socket/CoinApi.antt =====
-- coin-api/coin-api-ws.service.ts: one socket at a time, its handlers, and the reconnect timer.
pub mod Retries
pub mod Quiet
pub mod Emits
mod Tests
use exchange_watch.Base.{
  ℕ, suc, ◌+◌, ◌-◌, ◌≡◌, Bool, true, false, ◌&&◌, Option, none, some, List, [], ◌∷◌, ◌++◌, String,
  if◌then◌else◌, leb, ◌==◌, str_eq,
}

pub data ReadyState : Type 0 where
  connecting open_state closing closed : ReadyState

-- `this.ws`: the state of the connection, and whether its listeners are attached.
pub record WebSocket : Type 0 where
  pub ready_state : ReadyState
  pub listening : Bool

-- events/exchange-rate/latest-rate.event.ts, over the type of the rates
pub record LatestRateEvent (Rate : Type 0) : Type 0 where
  pub timestamp : ℕ
  pub base_currency : String
  pub currency_code : String
  pub rate : Rate

pub record CoinApi (Rate : Type 0) : Type 0 where
  pub ws : Option WebSocket
  pub last_heart_beat : Option ℕ
  pub connection_retries_count : ℕ
  -- whether `reconnectTimeout` is set
  pub reconnect_timeout : Bool
  -- the sockets made by `new WebSocket` so far, and the events emitted, newest first
  pub sockets : ℕ
  pub emitted : List (LatestRateEvent Rate)

-- A parsed message. `time` of a heartbeat is what `Number` makes of it, `none` for NaN.
pub data Message (Rate : Type 0) : Type 0 where
  heartbeat : Option ℕ → Message Rate
  exrate : ℕ → String → String → Rate → Message Rate
  other : Message Rate

-- What happens to the service. `ready` is the connection changing state by itself.
pub data Event (Rate : Type 0) : Type 0 where
  connects disconnects timer : Event Rate
  ready : ReadyState → Event Rate
  message : ℕ → Message Rate → Event Rate
  close : ℕ → Event Rate
  error : Event Rate

abbrev pub max_connection_retries_count : ℕ
max_connection_retries_count = 3

abbrev pub default_base_currency : String
default_base_currency = "KRW"

abbrev is_open : ReadyState → Bool
is_open ReadyState.open_state = true
is_open _ = false

-- `Number(receivedData.time) || Date.now()`
abbrev or_now : Option ℕ → ℕ → ℕ
or_now none now = now
or_now (some t) now = if t == 0 then now else t

-- The fields' initial values.
pub init : {Rate : Type 0} → CoinApi Rate
init = record {
  ws = none;
  last_heart_beat = none;
  connection_retries_count = 0;
  reconnect_timeout = false;
  sockets = 0;
  emitted = [];
}

-- What `cleanup` does to `this.ws`. `ws.close(1000)` is the library's: `after_close` is the state in
-- which it leaves an open connection.
cleanup_ws : ReadyState → Option WebSocket → Option WebSocket
cleanup_ws after_close none = none
cleanup_ws after_close (some ws) = some (record {
  ready_state = if is_open ws.ready_state then after_close else ws.ready_state;
  listening = false;
})

abbrev pub is_listening : Option WebSocket → Bool
is_listening none = false
is_listening (some ws) = ws.listening

abbrev is_connected : Option WebSocket → Bool
is_connected none = false
is_connected (some ws) = is_open ws.ready_state

set_ready : ReadyState → Option WebSocket → Option WebSocket
set_ready r none = none
set_ready r (some ws) = some (record ws { ready_state = r })

-- `!this.lastHeartBeat || Date.now() - this.lastHeartBeat > 60000`, denied
abbrev is_fresh : ℕ → Option ℕ → Bool
is_fresh now none = false
is_fresh now (some t) = if t == 0 then false else leb (now - t) 60000

-- `isHealthy`
pub is_healthy : {Rate : Type 0} → ℕ → CoinApi Rate → Bool
is_healthy now s = is_connected s.ws && is_fresh now s.last_heart_beat

module _ {Rate : Type 0} (after_close : ReadyState) where
  pub cleanup : CoinApi Rate → CoinApi Rate
  unfolding cleanup_ws
  cleanup s = record s {
    reconnect_timeout = false;
    ws = cleanup_ws after_close s.ws;
    last_heart_beat = none;
  }

  pub connect : CoinApi Rate → CoinApi Rate
  unfolding cleanup
  connect s = record (cleanup s) {
    ws = some (record { ready_state = ReadyState.connecting; listening = true });
    sockets = s.sockets + 1;
  }

  -- The handler of 'message'.
  on_message : ℕ → Message Rate → CoinApi Rate → CoinApi Rate
  on_message now (Message.heartbeat time) s = record s {
    connection_retries_count = 0;
    last_heart_beat = some (or_now time now);
  }
  on_message now (Message.exrate time base quote rate) s =
      if str_eq base default_base_currency
      then record s {
        emitted =
            record { timestamp = time; base_currency = base; currency_code = quote; rate = rate }
            ∷ s.emitted;
      }
      else s
  on_message now Message.other s = s

  -- The handler of 'close'.
  on_close : ℕ → CoinApi Rate → CoinApi Rate
  unfolding cleanup
  on_close code s =
      if code == 1000
      then cleanup s
      else if leb max_connection_retries_count s.connection_retries_count
      then cleanup s
      else record s {
        connection_retries_count = s.connection_retries_count + 1;
        reconnect_timeout = true;
      }

  pub step : CoinApi Rate → Event Rate → CoinApi Rate
  unfolding connect on_message on_close set_ready
  step s Event.connects = connect s
  step s Event.disconnects = cleanup s
  step s Event.timer = if s.reconnect_timeout then connect s else s
  step s (Event.ready r) = record s { ws = set_ready r s.ws }
  step s (Event.message now m) = if is_listening s.ws then on_message now m s else s
  step s (Event.close code) = if is_listening s.ws then on_close code s else s
  step s Event.error = if is_listening s.ws then cleanup s else s

  pub run : CoinApi Rate → List (Event Rate) → CoinApi Rate
  run s [] = s
  run s (e ∷ es) = run (step s e) es
