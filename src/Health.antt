-- ===== src/Health.antt =====
-- pkg/healthcheck/manager.go: the health of each backend address, and the goroutines that probe it.
-- A goroutine is an entry of `running` under a token; its cancel function erases the entry. A call
-- of the manager holds the mutex, so it is one step; the outcome of a probe is an argument.
pub mod Hysteresis
pub mod Tasks
pub mod Targets
use fast_vip.Prelude.{
  ℕ, suc, ◌+◌, ℤ, pos, String, Bool, true, false, not, List, [], ◌∷◌, Option, none, some,
  if◌then◌else◌, ◌==◌, string_eq, nat_eq, int_ltb, Dict, lookup, insert, erase, is_some, MapRange,
}
use fast_vip.Net.{Net}
use fast_vip.Config.{ServiceConfig, BackendConfig, HealthCheckConfig}
use fast_vip.Config.Defaults.{
  is_enabled, get_type, get_timeout, get_http_path, get_http_expected_status, get_interval,
  get_fail_count, get_rise_count,
}

-- The probes of checker.go, by their parameters.
pub data Checker : Type 0 where
  tcp_checker : ℤ → Checker
  udp_checker : ℤ → Checker
  http_checker : ℤ → String → ℤ → Checker

pub record ServiceCheckConfig : Type 0 where
  pub checker : Option Checker
  pub interval : ℤ
  pub fail_count : ℤ
  pub rise_count : ℤ
  pub enabled : Bool

pub record BackendStatus : Type 0 where
  pub address : String
  pub consecutive_fails : ℕ
  pub consecutive_ok : ℕ
  pub healthy : Bool
  -- cancel
  pub token : ℕ

pub record Check : Type 0 where
  pub address : String
  pub config : ServiceCheckConfig

pub record HealthManager : Type 0 where
  pub services : Dict String ServiceCheckConfig
  pub statuses : Dict String BackendStatus
  pub running : Dict ℕ Check
  pub next_token : ℕ

abbrev pub new_manager : HealthManager
new_manager = record { services = []; statuses = []; running = []; next_token = 0 }

-- An address that is not tracked counts as healthy.
unfoldable pub is_healthy : HealthManager → String → Bool
is_healthy m address = elim (lookup address m.statuses) [ none ↦ true | some s ↦ s.healthy ]

unfoldable pub stop_backend : String → HealthManager → HealthManager
stop_backend address m = elim (lookup address m.statuses) [
  | none ↦ m
  | some s ↦ record m { statuses = erase address m.statuses; running = erase s.token m.running }
]

-- stopServiceBackendsLocked
unfoldable pub stop_service_backends : List BackendConfig → HealthManager → HealthManager
stop_service_backends [] m = m
stop_service_backends (b ∷ rest) m = stop_service_backends rest (stop_backend b.address m)

-- startBackendCheckLocked. The goroutine runs until its cancel function or the caller's context ends it;
-- the latter happens only when the daemon stops. It panics in time.NewTicker unless the interval is
-- positive, and the process ends: the entry stands for a goroutine of a process that runs.
unfoldable pub start_backend_check : String → ServiceCheckConfig → HealthManager → HealthManager
start_backend_check address config m = record m {
  statuses =
      insert address
        (record {
          address = address;
          consecutive_fails = 0;
          consecutive_ok = 0;
          healthy = true;
          token = m.next_token;
        })
        m.statuses;
  running = insert m.next_token (record { address = address; config = config }) m.running;
  next_token = suc m.next_token;
}

unfoldable pub start_missing :
    ServiceCheckConfig → List BackendConfig → HealthManager → HealthManager
start_missing config [] m = m
start_missing config (b ∷ rest) m =
    start_missing config rest
      (if is_some (lookup b.address m.statuses) then m else start_backend_check b.address config m)

unfoldable pub add_addresses : List BackendConfig → Dict String Bool → Dict String Bool
add_addresses [] seen = seen
add_addresses (b ∷ rest) seen = add_addresses rest (insert b.address true seen)

abbrev pub disabled : ServiceCheckConfig
disabled = record {
  checker = none;
  interval = pos 0;
  fail_count = pos 0;
  rise_count = pos 0;
  enabled = false;
}

abbrev pub was_enabled : Option ServiceCheckConfig → Bool
was_enabled none = false
was_enabled (some c) = c.enabled

-- Under the lock handleCheckResult works on one status; the flag says that the verdict changed,
-- which calls onChange.
unfoldable pub record_result : ServiceCheckConfig → Bool → BackendStatus → BackendStatus
record_result config failed s =
    if failed
    then (let fails = s.consecutive_fails + 1 in
        record s {
          consecutive_fails = fails;
          consecutive_ok = 0;
          healthy = if s.healthy then int_ltb (pos fails) config.fail_count else false;
        })
    else (let oks = s.consecutive_ok + 1 in
        record s {
          consecutive_ok = oks;
          consecutive_fails = 0;
          healthy = if s.healthy then true else not (int_ltb (pos oks) config.rise_count);
        })

unfoldable pub handle_check_result :
    String → Bool → ServiceCheckConfig → HealthManager → HealthManager × Bool
handle_check_result address failed config m = elim (lookup address m.statuses) [
  | none ↦ (m, false)
  | some s ↦
      let s' = record_result config failed s in
      (
        record m { statuses = insert address s' m.statuses },
        if s.healthy then not s'.healthy else s'.healthy,
      )
]

unfoldable pub get_all_statuses : Dict String BackendStatus → Dict String Bool → Dict String Bool
get_all_statuses [] result = result
get_all_statuses ((address, s) ∷ rest) result =
    get_all_statuses rest (insert address s.healthy result)

module _ (net : Net) where
  -- The checker by the type of the check.
  unfoldable pub checker_of : HealthCheckConfig → Checker
  checker_of h =
      if get_type h == "http"
      then http_checker (get_timeout net h) (get_http_path h) (get_http_expected_status h)
      else if get_type h == "udp"
      then udp_checker (get_timeout net h)
      else tcp_checker (get_timeout net h)

  unfoldable pub service_check : HealthCheckConfig → ServiceCheckConfig
  service_check h = record {
    checker = some (checker_of h);
    interval = get_interval net h;
    fail_count = get_fail_count h;
    rise_count = get_rise_count h;
    enabled = true;
  }

  -- One service of UpdateTargets.
  unfoldable pub update_service : ServiceConfig → HealthManager → HealthManager
  update_service svc m =
      if is_enabled svc.health_check
      then (let config = service_check svc.health_check in
          start_missing config svc.backends
            (record m { services = insert svc.name config m.services }))
      else (let m' =
            if was_enabled (lookup svc.name m.services)
            then stop_service_backends svc.backends m
            else m in
          record m' { services = insert svc.name disabled m'.services })

  unfoldable pub update_services : List ServiceConfig → HealthManager → HealthManager
  update_services [] m = m
  update_services (svc ∷ rest) m = update_services rest (update_service svc m)

unfoldable pub service_names : List ServiceConfig → Dict String Bool → Dict String Bool
service_names [] seen = seen
service_names (svc ∷ rest) seen = service_names rest (insert svc.name true seen)

unfoldable pub backend_addresses : List ServiceConfig → Dict String Bool → Dict String Bool
backend_addresses [] seen = seen
backend_addresses (svc ∷ rest) seen = backend_addresses rest (add_addresses svc.backends seen)

unfoldable pub remove_services :
    Dict String Bool → Dict String ServiceCheckConfig → HealthManager → HealthManager
remove_services names [] m = m
remove_services names ((name, c) ∷ rest) m =
    remove_services names rest
      (if is_some (lookup name names) then m else record m { services = erase name m.services })

unfoldable pub remove_backends :
    Dict String Bool → Dict String BackendStatus → HealthManager → HealthManager
remove_backends addresses [] m = m
remove_backends addresses ((address, s) ∷ rest) m =
    remove_backends addresses rest
      (if is_some (lookup address addresses) then m else stop_backend address m)

unfoldable pub update_targets : Net → MapRange → List ServiceConfig → HealthManager → HealthManager
update_targets net rng cfgs m =
    let m1 = update_services net cfgs m in
    let m2 =
      remove_services (service_names cfgs []) (rng.order String ServiceCheckConfig m1.services)
        m1 in
    remove_backends (backend_addresses cfgs []) (rng.order String BackendStatus m2.statuses) m2

-- Stop cancels every check, and forgets all.
unfoldable pub cancel_all : Dict String BackendStatus → Dict ℕ Check → Dict ℕ Check
cancel_all [] running = running
cancel_all ((address, s) ∷ rest) running = cancel_all rest (erase s.token running)

unfoldable pub stop : MapRange → HealthManager → HealthManager
stop rng m = record m {
  services = [];
  statuses = [];
  running = cancel_all (rng.order String BackendStatus m.statuses) m.running;
}
