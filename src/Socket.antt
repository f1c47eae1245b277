-- ===== src/Socket.antt =====
-- infrastructure/externals/exchange-rates: the sockets that collect the latest rates. The manager
-- drives a primary and a fallback service; the primary is CoinAPI's.
pub mod Manager
pub mod CoinApi
pub mod Fallback
use exchange_watch.Base.{ℕ, Bool}

-- interfaces/exchange-rate-websocket.interface.ts: a service as the manager sees it. `is_healthy`
-- takes the time of the call.
pub record SocketService : Type 1 where
  pub State : Type 0
  pub connect : State → State
  pub disconnect : State → State
  pub is_healthy : ℕ → State → Bool
