-- ===== src/Socket/Manager/Failover.antt =====
-- What the manager guarantees of its active service, over any history of calls.
use exchange_watch.Base.{ℕ, ◌≤◌, ◌≡◌, refl, true, false, Option, none, some, List, [], ◌∷◌, arith}
use exchange_watch.Socket.{SocketService}
use exchange_watch.Socket.Manager.{
  Manager, Event, Service, connect_active, disconnect, is_healthy, check_health, step, run,
}

-- How far the failover has gone: primary, secondary, shut down.
abbrev pub stage : Option Service → ℕ
stage (some Service.primary_service) = 0
stage (some Service.secondary_service) = 1
stage none = 2

stage-le : (a : Option Service) → stage a ≤ 2
stage-le none = omega arith
stage-le (some Service.primary_service) = omega arith
stage-le (some Service.secondary_service) = omega arith

-- A history in which the services do not move by themselves.
abbrev pub IsCall : {P Q : SocketService} → Event P Q → Type 0
IsCall (Event.services_move p q) = ⊥
IsCall _ = Unit

abbrev pub AreCalls : {P Q : SocketService} → List (Event P Q) → Type 0
AreCalls [] = Unit
AreCalls (e ∷ es) = IsCall e × AreCalls es

module _ {P Q : SocketService} where
  connect-active :
      (a : Option Service) (m : Manager P Q)
      → (connect_active a m).active_service ≡ m.active_service
  unfolding connect_active
  connect-active none m = refl
  connect-active (some Service.primary_service) m = refl
  connect-active (some Service.secondary_service) m = refl

  step-stage-le :
      (m : Manager P Q) (e : Event P Q) → stage m.active_service ≤ stage (step m e).active_service
  unfolding step
  step-stage-le m Event.connects = rw (connect-active m.active_service m) (omega arith)
  step-stage-le m Event.disconnects = stage-le m.active_service
  step-stage-le m (Event.health_check now) = ground arith
  step-stage-le m (Event.services_move p q) = omega arith

  -- The failover never goes back: over any history of calls, the active service moves from the primary to
  -- the secondary to none, or stays.
  pub run-stage-le :
      (m : Manager P Q) (es : List (Event P Q))
      → stage m.active_service ≤ stage (run m es).active_service
  unfolding run
  run-stage-le m [] = omega arith
  run-stage-le m (e ∷ es) = omega (arith, step-stage-le m e, run-stage-le (step m e) es)

  shut_step :
      (m : Manager P Q) (e : Event P Q)
      → IsCall e
      → m.active_service ≡ none
      → ((step m e).active_service ≡ none)
        × ((step m e).primary ≡ m.primary)
        × ((step m e).secondary ≡ m.secondary)
  unfolding step
  shut_step m Event.connects c h = ground arith
  shut_step m Event.disconnects c h = ground arith
  shut_step m (Event.health_check now) c h = ground arith
  shut_step m (Event.services_move p q) c h = absurd c

  shut_run :
      (m : Manager P Q) (es : List (Event P Q))
      → AreCalls es
      → m.active_service ≡ none
      → ((run m es).primary ≡ m.primary) × ((run m es).secondary ≡ m.secondary)
  unfolding run
  shut_run m [] c h = (refl, refl)
  shut_run m (e ∷ es) c h =
      let (a, p, q) = shut_step m e c.0 h in let (p', q') = shut_run (step m e) es c.1 a in (cc, cc)

  -- The bug: once `disconnect` has run, no later call reaches either service, `connect` included, so the
  -- collection of rates does not start again.
  pub disconnect_is_final :
      (m : Manager P Q) (es : List (Event P Q))
      → AreCalls es
      → ((run (disconnect m) es).primary ≡ (disconnect m).primary)
        × ((run (disconnect m) es).secondary ≡ (disconnect m).secondary)
  unfolding disconnect
  disconnect_is_final m es c = shut_run (disconnect m) es c refl

  -- One health check on every branch: a stopped interval or a healthy service changes nothing; an unhealthy primary
  -- is disconnected and the secondary connected in its place; an unhealthy secondary is disconnected, no
  -- service stays active, and the interval stops.
  pub check_health_lem :
      (now : ℕ) (m : Manager P Q)
      → (m.health_check_interval ≡ false → check_health now m ≡ m)
        × (is_healthy now m ≡ true → check_health now m ≡ m)
        × (m.health_check_interval ≡ true
            → m.active_service ≡ some Service.primary_service
            → P.is_healthy now m.primary ≡ false
            → ((check_health now m).primary ≡ P.disconnect m.primary)
              × ((check_health now m).secondary ≡ Q.connect m.secondary)
              × ((check_health now m).active_service ≡ some Service.secondary_service)
              × ((check_health now m).health_check_interval ≡ true))
        × (m.health_check_interval ≡ true
            → m.active_service ≡ some Service.secondary_service
            → Q.is_healthy now m.secondary ≡ false
            → ((check_health now m).primary ≡ m.primary)
              × ((check_health now m).secondary ≡ Q.disconnect m.secondary)
              × ((check_health now m).active_service ≡ none)
              × ((check_health now m).health_check_interval ≡ false))
  unfolding check_health
  check_health_lem now m =
      ((λ h. ground arith), (λ h. ground arith), (λ h a u. ground arith), (λ h a u. ground arith))
