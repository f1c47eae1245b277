-- ===== src/Socket/Manager.antt =====
-- websocket-manager.service.ts: one active service, a health check every ten seconds, failover.
pub mod Failover
pub mod StandIn
mod Tests
use exchange_watch.Base.{ℕ, Bool, true, false, Option, none, some, List, [], ◌∷◌, if◌then◌else◌}
use exchange_watch.Socket.{SocketService}

pub data Service : Type 0 where
  primary_service secondary_service : Service

module _ (P Q : SocketService) where
  pub record Manager : Type 0 where
    pub primary : P.State
    pub secondary : Q.State
    pub active_service : Option Service
    -- whether the interval of the health check runs
    pub health_check_interval : Bool

  -- What is called on the manager: by the gateway, by shutdown, and by the interval at a time.
  pub data Event : Type 0 where
    connects disconnects : Event
    health_check : ℕ → Event
    -- the services' own life between the manager's calls
    services_move : P.State → Q.State → Event

-- The constructor's state.
pub init : (P Q : SocketService) → P.State → Q.State → Manager P Q
init P Q p q = record {
  primary = p;
  secondary = q;
  active_service = some Service.primary_service;
  health_check_interval = false;
}

module _ {P Q : SocketService} where
  -- `this.activeService?.connect()`
  connect_active : Option Service → Manager P Q → Manager P Q
  connect_active none m = m
  connect_active (some Service.primary_service) m = record m { primary = P.connect m.primary }
  connect_active (some Service.secondary_service) m = record m { secondary = Q.connect m.secondary }

  disconnect_active : Option Service → Manager P Q → Manager P Q
  disconnect_active none m = m
  disconnect_active (some Service.primary_service) m = record m { primary = P.disconnect m.primary }
  disconnect_active (some Service.secondary_service) m = record m {
    secondary = Q.disconnect m.secondary;
  }

  -- `this.activeService?.isHealthy() ?? false`
  healthy_active : Option Service → ℕ → Manager P Q → Bool
  healthy_active none now m = false
  healthy_active (some Service.primary_service) now m = P.is_healthy now m.primary
  healthy_active (some Service.secondary_service) now m = Q.is_healthy now m.secondary

  pub connect : Manager P Q → Manager P Q
  unfolding connect_active
  connect m = record (connect_active m.active_service m) { health_check_interval = true }

  pub disconnect : Manager P Q → Manager P Q
  unfolding disconnect_active
  disconnect m = record (disconnect_active m.active_service m) {
    active_service = none;
    health_check_interval = false;
  }

  pub is_healthy : ℕ → Manager P Q → Bool
  unfolding healthy_active
  is_healthy now m = healthy_active m.active_service now m

  failover_from : Option Service → Manager P Q → Manager P Q
  unfolding disconnect
  failover_from none m = m
  failover_from (some Service.primary_service) m = record m {
    primary = P.disconnect m.primary;
    secondary = Q.connect m.secondary;
    active_service = some Service.secondary_service;
  }
  failover_from (some Service.secondary_service) m = disconnect m

  pub failover : Manager P Q → Manager P Q
  unfolding failover_from
  failover m = failover_from m.active_service m

  -- One firing of the interval.
  pub check_health : ℕ → Manager P Q → Manager P Q
  unfolding failover is_healthy
  check_health now m =
      if m.health_check_interval then (if is_healthy now m then m else failover m) else m

  pub step : Manager P Q → Event P Q → Manager P Q
  unfolding connect disconnect check_health
  step m Event.connects = connect m
  step m Event.disconnects = disconnect m
  step m (Event.health_check now) = check_health now m
  step m (Event.services_move p q) = record m { primary = p; secondary = q }

  pub run : Manager P Q → List (Event P Q) → Manager P Q
  run m [] = m
  run m (e ∷ es) = run (step m e) es
