-- ===== src/TrafficLog.antt =====
-- pkg/trafficlog/models.go: the statistics of services and backends, and what provides them.
pub mod Adapter
pub mod Delta
pub mod Fields
pub mod Collector
pub mod Loop
use fast_vip.Prelude.{ℕ, String, Dict, Result}

pub record ServiceTrafficStats : Type 0 where
  pub connections : ℕ
  pub in_pkts : ℕ
  pub out_pkts : ℕ
  pub in_bytes : ℕ
  pub out_bytes : ℕ

pub record BackendTrafficStats : Type 0 where
  pub service_key : String
  pub connections : ℕ
  pub active_connections : ℕ
  pub inactive_connections : ℕ
  pub current_connections : ℕ
  pub in_pkts : ℕ
  pub out_pkts : ℕ
  pub in_bytes : ℕ
  pub out_bytes : ℕ

pub record TrafficSnapshot : Type 0 where
  pub services : Dict String ServiceTrafficStats
  pub backends : Dict String BackendTrafficStats

-- What the two calls of an LVSStatsProvider return at one time.
pub record LvsStats : Type 0 where
  pub service_stats : Result (Dict String ServiceTrafficStats)
  pub backend_stats : Result (Dict String BackendTrafficStats)

-- The zero values of the structs, which a missing key of a map gives.
abbrev pub no_service_stats : ServiceTrafficStats
no_service_stats = record {
  connections = 0;
  in_pkts = 0;
  out_pkts = 0;
  in_bytes = 0;
  out_bytes = 0;
}

abbrev pub no_backend_stats : BackendTrafficStats
no_backend_stats = record {
  service_key = "";
  connections = 0;
  active_connections = 0;
  inactive_connections = 0;
  current_connections = 0;
  in_pkts = 0;
  out_pkts = 0;
  in_bytes = 0;
  out_bytes = 0;
}
