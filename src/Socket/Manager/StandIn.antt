-- ===== src/Socket/Manager/StandIn.antt =====
-- The manager with the services of external.module.ts, once it has failed over to the stand-in.
use exchange_watch.Base.{ℕ, ◌≡◌, refl, true, some, List, [], ◌∷◌, arith}
use exchange_watch.Numbers.{Numbers}
use exchange_watch.Socket.{SocketService}
use exchange_watch.Socket.Fallback.{stand_in, is_healthy}
use exchange_watch.Socket.Manager.{
  Manager, Event, Service, is_healthy as manager_healthy, step, run,
}

module _ (P : SocketService) (N : Numbers) where
  -- A call or a health check that is no disconnect, and in which no service moves by itself.
  abbrev pub NoDisconnect : Event P (stand_in N) → Type 0
  NoDisconnect Event.disconnects = ⊥
  NoDisconnect (Event.services_move p q) = ⊥
  NoDisconnect _ = Unit

  abbrev pub NoDisconnects : List (Event P (stand_in N)) → Type 0
  NoDisconnects [] = Unit
  NoDisconnects (e ∷ es) = NoDisconnect e × NoDisconnects es

  healthy :
      (now : ℕ) (m : Manager P (stand_in N))
      → m.active_service ≡ some Service.secondary_service
      → manager_healthy now m ≡ true
  unfolding manager_healthy is_healthy
  healthy now m a = ground (arith, a)

  step-stays :
      (m : Manager P (stand_in N)) (e : Event P (stand_in N))
      → NoDisconnect e
      → m.active_service ≡ some Service.secondary_service
      → ((step m e).active_service ≡ some Service.secondary_service)
        × ((step m e).primary ≡ m.primary)
  unfolding step
  step-stays m Event.connects g a = ground (arith, a)
  step-stays m (Event.health_check now) g a = ground (arith, a, healthy now m a)
  step-stays m Event.disconnects g a = absurd g
  step-stays m (Event.services_move p q) g a = absurd g

  -- Once the manager has failed over to the stand-in, whatever it is called, short of disconnect, and however often its health
  -- is checked: the stand-in, whose rates are made up, stays active and is reported healthy, and the primary is not called again.
  pub run-stays :
      (now : ℕ) (m : Manager P (stand_in N)) (es : List (Event P (stand_in N)))
      → NoDisconnects es
      → m.active_service ≡ some Service.secondary_service
      → ((run m es).active_service ≡ some Service.secondary_service)
        × ((run m es).primary ≡ m.primary)
        × (manager_healthy now (run m es) ≡ true)
  unfolding run
  run-stays now m [] g a = (a, refl, healthy now m a)
  run-stays now m (e ∷ es) g a =
      let (b, p) = step-stays m e g.0 a in
      let (c, q, h) = run-stays now (step m e) es g.1 b in (c, cc (p, q), h)
