-- ===== src/Socket/CoinApi/Emits.antt =====
-- Which rates reach the listeners.
use exchange_watch.Base.{◌≡◌, List, [], ◌∷◌, arith, All, eq_iff}
use exchange_watch.Socket.CoinApi.{
  CoinApi, Event, Message, ReadyState, LatestRateEvent, default_base_currency, step, run,
}

abbrev pub IsBase : {Rate : Type 0} → LatestRateEvent Rate → Type 0
IsBase e = e.base_currency ≡ default_base_currency

module _ {Rate : Type 0} (after_close : ReadyState) where
  step-emitted :
      (s : CoinApi Rate) (e : Event Rate)
      → All IsBase s.emitted
      → All IsBase (step after_close s e).emitted
  unfolding step
  step-emitted s Event.connects h = h
  step-emitted s Event.disconnects h = h
  step-emitted s Event.timer h = ground arith
  step-emitted s (Event.ready r) h = h
  step-emitted s (Event.message now (Message.heartbeat t)) h = ground arith
  step-emitted s (Event.message now (Message.exrate t b q r)) h =
      ground (arith, eq_iff b default_base_currency)
  step-emitted s (Event.message now Message.other) h = ground arith
  step-emitted s (Event.close code) h = ground arith
  step-emitted s Event.error h = ground arith

  -- Whatever messages arrive, only rates against KRW are emitted.
  pub run-emitted :
      (s : CoinApi Rate) (es : List (Event Rate))
      → All IsBase s.emitted
      → All IsBase (run after_close s es).emitted
  unfolding run
  run-emitted s [] h = h
  run-emitted s (e ∷ es) h = run-emitted (step after_close s e) es (step-emitted s e h)
