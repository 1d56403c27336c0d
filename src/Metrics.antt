-- ===== src/Metrics.antt =====
-- pkg/metrics/metrics.go. The Prometheus client is a library: each function is the list of the calls
-- that it makes on it. A float64 value is a natural number, which it holds exactly below 2 ^ 53.
use fast_vip.Prelude.{ℕ, String, Bool, List, [], ◌∷◌, if◌then◌else◌}

pub data CounterName : Type 0 where
  service_connections_total service_bytes_in_total service_bytes_out_total : CounterName
  service_packets_in_total service_packets_out_total : CounterName
  backend_connections_total backend_bytes_in_total backend_bytes_out_total : CounterName
  config_reload_total reconcile_errors_total : CounterName

pub data GaugeName : Type 0 where
  backend_active_connections backend_inactive_connections backend_health_status : GaugeName
  fake_backend_active : GaugeName

-- `.With(labels).Add(v)`, `.With(labels).Set(v)` and `.Delete(labels)`, the values of the labels in the
-- order in which the vector declares them.
pub data RegistryCall : Type 0 where
  adds : CounterName → List String → ℕ → RegistryCall
  sets : GaugeName → List String → ℕ → RegistryCall
  deletes_counter : CounterName → List String → RegistryCall
  deletes_gauge : GaugeName → List String → RegistryCall

unfoldable pub set_fake_backend_active : String → Bool → List RegistryCall
set_fake_backend_active component is_fake =
    sets fake_backend_active (component ∷ []) (if is_fake then 1 else 0) ∷ []

unfoldable pub set_service_traffic :
    String → String → String → ℕ → ℕ → ℕ → ℕ → ℕ → List RegistryCall
set_service_traffic service listen protocol connections bytes_in bytes_out packets_in packets_out =
    let labels = service ∷ listen ∷ protocol ∷ [] in
    adds service_connections_total labels connections
    ∷ adds service_bytes_in_total labels bytes_in
    ∷ adds service_bytes_out_total labels bytes_out
    ∷ adds service_packets_in_total labels packets_in
    ∷ adds service_packets_out_total labels packets_out
    ∷ []

unfoldable pub set_backend_traffic : String → String → String → ℕ → ℕ → ℕ → List RegistryCall
set_backend_traffic service backend protocol connections bytes_in bytes_out =
    let labels = service ∷ backend ∷ protocol ∷ [] in
    adds backend_connections_total labels connections
    ∷ adds backend_bytes_in_total labels bytes_in
    ∷ adds backend_bytes_out_total labels bytes_out
    ∷ []

unfoldable pub set_backend_connections : String → String → String → ℕ → ℕ → List RegistryCall
set_backend_connections service backend protocol active inactive =
    let labels = service ∷ backend ∷ protocol ∷ [] in
    sets backend_active_connections labels active
    ∷ sets backend_inactive_connections labels inactive
    ∷ []

unfoldable pub set_backend_health : String → String → Bool → List RegistryCall
set_backend_health service backend healthy =
    sets backend_health_status (service ∷ backend ∷ []) (if healthy then 1 else 0) ∷ []

unfoldable pub inc_config_reload : List RegistryCall
inc_config_reload = adds config_reload_total [] 1 ∷ []

unfoldable pub inc_reconcile_errors : List RegistryCall
inc_reconcile_errors = adds reconcile_errors_total [] 1 ∷ []

unfoldable pub delete_backend_metrics : String → String → String → List RegistryCall
delete_backend_metrics service backend protocol =
    let labels = service ∷ backend ∷ protocol ∷ [] in
    deletes_counter backend_connections_total labels
    ∷ deletes_counter backend_bytes_in_total labels
    ∷ deletes_counter backend_bytes_out_total labels
    ∷ deletes_gauge backend_active_connections labels
    ∷ deletes_gauge backend_inactive_connections labels
    ∷ deletes_gauge backend_health_status (service ∷ backend ∷ [])
    ∷ []

unfoldable pub delete_service_metrics : String → String → String → List RegistryCall
delete_service_metrics service listen protocol =
    let labels = service ∷ listen ∷ protocol ∷ [] in
    deletes_counter service_connections_total labels
    ∷ deletes_counter service_bytes_in_total labels
    ∷ deletes_counter service_bytes_out_total labels
    ∷ deletes_counter service_packets_in_total labels
    ∷ deletes_counter service_packets_out_total labels
    ∷ []
