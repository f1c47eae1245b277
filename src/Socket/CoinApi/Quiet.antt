-- ===== src/Socket/CoinApi/Quiet.antt =====
-- A service that has cleaned up stays quiet until it is connected again.
use exchange_watch.Base.{
  ℕ, ◌≡◌, refl, true, false, Option, none, some, List, [], ◌∷◌, arith, All, ◌∙◌, if_of_false,
  if_of_true, ap, sym, subst,
}
use exchange_watch.Socket.CoinApi.{
  CoinApi, WebSocket, cleanup_ws, set_ready, Event, ReadyState, cleanup, is_listening, is_healthy,
  step, run,
}

-- Anything but a call of `connect`.
abbrev pub IsNotConnect : {Rate : Type 0} → Event Rate → Type 0
IsNotConnect Event.connects = ⊥
IsNotConnect _ = Unit

-- No timer, no heartbeat, no listener.
record IsQuiet {Rate : Type 0} (s : CoinApi Rate) : Type 0 where
  timer_off : s.reconnect_timeout ≡ false
  no_beat : s.last_heart_beat ≡ none
  deaf : is_listening s.ws ≡ false

cleanup_ws-deaf : (c : ReadyState) (o : Option WebSocket) → is_listening (cleanup_ws c o) ≡ false
unfolding cleanup_ws
cleanup_ws-deaf c none = refl
cleanup_ws-deaf c (some ws) = refl

set_ready-deaf :
    (r : ReadyState) (o : Option WebSocket) → is_listening (set_ready r o) ≡ is_listening o
unfolding set_ready
set_ready-deaf r none = refl
set_ready-deaf r (some ws) = refl

module _ {Rate : Type 0} (after_close : ReadyState) where
  cleanup-IsQuiet : (s : CoinApi Rate) → IsQuiet (cleanup after_close s)
  unfolding cleanup
  cleanup-IsQuiet s = record {
    timer_off = refl;
    no_beat = refl;
    deaf = cleanup_ws-deaf after_close s.ws;
  }

  unchanged :
      (s t : CoinApi Rate)
      → t ≡ s
      → IsQuiet s
      → IsQuiet t × (t.sockets ≡ s.sockets) × (t.emitted ≡ s.emitted)
  unchanged s t e q = (
    subst IsQuiet (sym e) q,
    ap (λ (x : CoinApi Rate). x.sockets) e,
    ap (λ (x : CoinApi Rate). x.emitted) e,
  )

  -- What an event leaves of a quiet service.
  step-IsQuiet :
      (s : CoinApi Rate) (e : Event Rate)
      → IsNotConnect e
      → IsQuiet s
      → IsQuiet (step after_close s e)
        × ((step after_close s e).sockets ≡ s.sockets)
        × ((step after_close s e).emitted ≡ s.emitted)
  unfolding step
  step-IsQuiet s Event.connects n q = absurd n
  step-IsQuiet s Event.disconnects n q = (cleanup-IsQuiet s, refl, refl)
  step-IsQuiet s Event.timer n q = unchanged s _ (if_of_false _ _ _ q.timer_off) q
  step-IsQuiet s (Event.ready r) n q = (
    record { timer_off = q.timer_off; no_beat = q.no_beat; deaf = set_ready-deaf r s.ws ∙ q.deaf },
    refl,
    refl,
  )
  step-IsQuiet s (Event.message now m) n q = unchanged s _ (if_of_false _ _ _ q.deaf) q
  step-IsQuiet s (Event.close code) n q = unchanged s _ (if_of_false _ _ _ q.deaf) q
  step-IsQuiet s Event.error n q = unchanged s _ (if_of_false _ _ _ q.deaf) q

  run-IsQuiet :
      (s : CoinApi Rate) (es : List (Event Rate))
      → All IsNotConnect es
      → IsQuiet s
      → IsQuiet (run after_close s es)
        × ((run after_close s es).sockets ≡ s.sockets)
        × ((run after_close s es).emitted ≡ s.emitted)
  unfolding run
  run-IsQuiet s [] n q = (q, refl, refl)
  run-IsQuiet s (e ∷ es) n q =
      let (q', made, sent) = step-IsQuiet s e n.0 q in
      let (q'', made', sent') = run-IsQuiet (step after_close s e) es n.1 q' in
      (q'', made' ∙ made, sent' ∙ sent)

  quiet_unhealthy : (s : CoinApi Rate) (now : ℕ) → IsQuiet s → is_healthy now s ≡ false
  unfolding is_healthy
  quiet_unhealthy s now q = ground (arith, q.no_beat)

  -- After `disconnect` nothing that happens, short of a call of `connect`, makes a socket, emits a rate or
  -- makes the service healthy again.
  pub disconnect_stays :
      (s : CoinApi Rate) (es : List (Event Rate)) (now : ℕ)
      → All IsNotConnect es
      → ((run after_close (step after_close s Event.disconnects) es).sockets ≡ s.sockets)
        × ((run after_close (step after_close s Event.disconnects) es).emitted ≡ s.emitted)
        × (is_healthy now (run after_close (step after_close s Event.disconnects) es) ≡ false)
  unfolding step
  disconnect_stays s es now n =
      let (q, made, sent) = run-IsQuiet (cleanup after_close s) es n (cleanup-IsQuiet s) in
      (made, sent, quiet_unhealthy _ now q)

  -- The bug: an error of a socket that is listened to removes the listeners, so the close that follows it never reaches
  -- the reconnection: without a call of `connect` no further socket is made, however many retries are left.
  pub error_never_reconnects :
      (s : CoinApi Rate) (es : List (Event Rate)) (now : ℕ)
      → is_listening s.ws ≡ true
      → All IsNotConnect es
      → ((run after_close (step after_close s Event.error) es).sockets ≡ s.sockets)
        × (is_healthy now (run after_close (step after_close s Event.error) es) ≡ false)
  unfolding step
  error_never_reconnects s es now l n =
      let (q, made, _) = run-IsQuiet (cleanup after_close s) es n (cleanup-IsQuiet s) in
      rw (if_of_true _ (cleanup after_close s) s l) (made, quiet_unhealthy _ now q)
