-- ===== src/Socket/CoinApi/Retries.antt =====
-- Reconnection is bounded, whatever the network does.
use exchange_watch.Base.{ℕ, ◌+◌, ◌-◌, ◌≤◌, ◌≡◌, false, List, [], ◌∷◌, arith, if◌then◌else◌, All}
use exchange_watch.Socket.CoinApi.{
  CoinApi, Event, Message, ReadyState, max_connection_retries_count, step, run,
}

-- What may stand in a history without a heartbeat and without a call of `connect` from outside.
abbrev pub IsSilent : {Rate : Type 0} → Event Rate → Type 0
IsSilent Event.connects = ⊥
IsSilent (Event.message now (Message.heartbeat t)) = ⊥
IsSilent _ = Unit

-- The sockets made and those that may still be made.
abbrev budget : {Rate : Type 0} → CoinApi Rate → ℕ
budget s =
    s.sockets
    + (if s.reconnect_timeout then 1 else 0)
    + (max_connection_retries_count - s.connection_retries_count)

module _ {Rate : Type 0} (after_close : ReadyState) where
  step-retries-le :
      (s : CoinApi Rate) (e : Event Rate)
      → s.connection_retries_count ≤ max_connection_retries_count
      → (step after_close s e).connection_retries_count ≤ max_connection_retries_count
  unfolding step
  step-retries-le s Event.connects h = h
  step-retries-le s Event.disconnects h = h
  step-retries-le s Event.timer h = ground arith
  step-retries-le s (Event.ready r) h = h
  step-retries-le s (Event.message now (Message.heartbeat t)) h = ground arith
  step-retries-le s (Event.message now (Message.exrate t b q r)) h = ground arith
  step-retries-le s (Event.message now Message.other) h = ground arith
  step-retries-le s (Event.close code) h = ground arith
  step-retries-le s Event.error h = ground arith

  -- In every history from the start the count of retries stays at three at most.
  pub run-retries-le :
      (s : CoinApi Rate) (es : List (Event Rate))
      → s.connection_retries_count ≤ max_connection_retries_count
      → (run after_close s es).connection_retries_count ≤ max_connection_retries_count
  unfolding run
  run-retries-le s [] h = h
  run-retries-le s (e ∷ es) h = run-retries-le (step after_close s e) es (step-retries-le s e h)

  step-budget-le :
      (s : CoinApi Rate) (e : Event Rate) → IsSilent e → budget (step after_close s e) ≤ budget s
  unfolding step
  step-budget-le s Event.connects h = absurd h
  step-budget-le s Event.disconnects h = ground arith
  step-budget-le s Event.timer h = ground arith
  step-budget-le s (Event.ready r) h = omega arith
  step-budget-le s (Event.message now (Message.heartbeat t)) h = absurd h
  step-budget-le s (Event.message now (Message.exrate t b q r)) h = ground arith
  step-budget-le s (Event.message now Message.other) h = ground arith
  step-budget-le s (Event.close code) h = ground arith
  step-budget-le s Event.error h = ground arith

  run-budget-le :
      (s : CoinApi Rate) (es : List (Event Rate))
      → All IsSilent es
      → budget (run after_close s es) ≤ budget s
  unfolding run
  run-budget-le s [] h = omega arith
  run-budget-le s (e ∷ es) h =
      omega (arith, step-budget-le s e h.0, run-budget-le (step after_close s e) es h.1)

  -- While no heartbeat arrives and nobody calls `connect`, a service with no reconnect pending
  -- makes at most as many new sockets as it has retries left, of three.
  pub run-sockets-le :
      (s : CoinApi Rate) (es : List (Event Rate))
      → s.reconnect_timeout ≡ false
      → All IsSilent es
      → (run after_close s es).sockets
        ≤ s.sockets + (max_connection_retries_count - s.connection_retries_count)
  run-sockets-le s es t h = ground (arith, run-budget-le s es h)
