-- ===== src/TrafficLog/Collector/Logs.antt =====
-- pkg/trafficlog/collector.go: the entries of the traffic log, each as the fields it is written with.
use fast_vip.Prelude.{
  ℕ, ◌+◌, ◌%◌, ◌^◌, String, Bool, false, List, [], ◌∷◌, ◌++◌, Option, none, some, if◌then◌else◌,
  nat_beq, Dict, lookup, insert, string_eq, MapRange,
}
use fast_vip.Config.{ServiceConfig}
use fast_vip.TrafficLog.{ServiceTrafficStats, BackendTrafficStats, TrafficSnapshot}
use fast_vip.TrafficLog.Fields.{Field, text, number, service_fields}
use fast_vip.TrafficLog.Collector.{build_service_config_map}

pub record ConnectionCounts : Type 0 where
  pub active_connections : ℕ
  pub inactive_connections : ℕ
  pub current_connections : ℕ

abbrev pub no_counts : ConnectionCounts
no_counts = record { active_connections = 0; inactive_connections = 0; current_connections = 0 }

abbrev pub counts_of : Option ConnectionCounts → ConnectionCounts
counts_of none = no_counts
counts_of (some c) = c

-- `a + b` on uint64.
abbrev pub add64 : ℕ → ℕ → ℕ
add64 a b = (a + b) % 2 ^ 64

unfoldable pub backend_current_connections : BackendTrafficStats → ℕ
backend_current_connections s =
    if nat_beq s.current_connections 0
    then add64 s.active_connections s.inactive_connections
    else s.current_connections

unfoldable pub add_counts : BackendTrafficStats → ConnectionCounts → ConnectionCounts
add_counts s c = record {
  active_connections = add64 c.active_connections s.active_connections;
  inactive_connections = add64 c.inactive_connections s.inactive_connections;
  current_connections = add64 c.current_connections (backend_current_connections s);
}

-- aggregateServiceConnectionCounts
unfoldable pub aggregate :
    Dict String BackendTrafficStats → Dict String ConnectionCounts → Dict String ConnectionCounts
aggregate [] acc = acc
aggregate ((key, s) ∷ rest) acc =
    aggregate rest (insert s.service_key (add_counts s (counts_of (lookup s.service_key acc))) acc)

unfoldable pub is_traffic_log_enabled : Option Bool → Bool
is_traffic_log_enabled none = false
is_traffic_log_enabled (some b) = b

abbrev pub count_fields : Option ConnectionCounts → List Field
count_fields none = []
count_fields (some c) =
    number "active_connections" c.active_connections
    ∷ number "inactive_connections" c.inactive_connections
    ∷ number "current_connections" c.current_connections
    ∷ []

unfoldable pub service_entry :
    ServiceConfig → ServiceTrafficStats → Option ConnectionCounts → List Field
service_entry svc s counts =
    service_fields svc
    ++ (text "source" "ipvs"
        ∷ text "type" "service"
        ∷ number "connections" s.connections
        ∷ number "bytes_in" s.in_bytes
        ∷ number "bytes_out" s.out_bytes
        ∷ number "packets_in" s.in_pkts
        ∷ number "packets_out" s.out_pkts
        ∷ count_fields counts)

unfoldable pub backend_entry : ServiceConfig → String → BackendTrafficStats → List Field
backend_entry svc key s =
    service_fields svc
    ++ (text "source" "ipvs"
        ∷ text "type" "backend"
        ∷ text "backend_key" key
        ∷ number "connections" s.connections
        ∷ number "bytes_in" s.in_bytes
        ∷ number "bytes_out" s.out_bytes
        ∷ number "packets_in" s.in_pkts
        ∷ number "packets_out" s.out_pkts
        ∷ number "active_connections" s.active_connections
        ∷ number "inactive_connections" s.inactive_connections
        ∷ number "current_connections" (backend_current_connections s)
        ∷ [])

module _ (configs : Dict String ServiceConfig) where
  -- The service of a key, if its traffic log is on.
  unfoldable pub logged_service : String → Option ServiceConfig
  logged_service key = elim (lookup key configs) [
    | none ↦ none
    | some svc ↦ if is_traffic_log_enabled svc.traffic_log then some svc else none
  ]

  unfoldable pub service_entries :
      Dict String ConnectionCounts → Dict String ServiceTrafficStats → List (List Field)
  service_entries counts [] = []
  service_entries counts ((key, s) ∷ rest) =
      let others = service_entries counts rest in
      elim (logged_service key) [
        | none ↦ others
        | some svc ↦ service_entry svc s (lookup key counts) ∷ others
      ]

  unfoldable pub backend_entries : Dict String BackendTrafficStats → List (List Field)
  backend_entries [] = []
  backend_entries ((key, s) ∷ rest) =
      let others = backend_entries rest in
      elim (logged_service s.service_key) [
        | none ↦ others
        | some svc ↦ backend_entry svc key s ∷ others
      ]

-- Each of the three loops over the snapshot has its own order.
unfoldable pub log_raw_stats : MapRange → List ServiceConfig → TrafficSnapshot → List (List Field)
log_raw_stats rng services snapshot =
    let configs = build_service_config_map services [] in
    let counts = aggregate (rng.order String BackendTrafficStats snapshot.backends) [] in
    service_entries configs counts (rng.order String ServiceTrafficStats snapshot.services)
    ++ backend_entries configs (rng.order String BackendTrafficStats snapshot.backends)
