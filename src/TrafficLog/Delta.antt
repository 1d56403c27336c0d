-- ===== src/TrafficLog/Delta.antt =====
-- pkg/trafficlog/collector.go: the differences of cumulative counters between two polls.
use fast_vip.Prelude.{ℕ, ◌-◌, ltb, if◌then◌else◌}
use fast_vip.TrafficLog.{ServiceTrafficStats, BackendTrafficStats}

-- A counter that went back was reset, and counts from zero.
unfoldable pub delta_uint64 : ℕ → ℕ → ℕ
delta_uint64 current previous = if ltb current previous then current else current - previous

unfoldable pub diff_service_stats : ServiceTrafficStats → ServiceTrafficStats → ServiceTrafficStats
diff_service_stats prev current = record {
  connections = delta_uint64 current.connections prev.connections;
  in_pkts = delta_uint64 current.in_pkts prev.in_pkts;
  out_pkts = delta_uint64 current.out_pkts prev.out_pkts;
  in_bytes = delta_uint64 current.in_bytes prev.in_bytes;
  out_bytes = delta_uint64 current.out_bytes prev.out_bytes;
}

unfoldable pub diff_backend_stats : BackendTrafficStats → BackendTrafficStats → BackendTrafficStats
diff_backend_stats prev current = record {
  service_key = current.service_key;
  connections = delta_uint64 current.connections prev.connections;
  active_connections = 0;
  inactive_connections = 0;
  current_connections = 0;
  in_pkts = delta_uint64 current.in_pkts prev.in_pkts;
  out_pkts = delta_uint64 current.out_pkts prev.out_pkts;
  in_bytes = delta_uint64 current.in_bytes prev.in_bytes;
  out_bytes = delta_uint64 current.out_bytes prev.out_bytes;
}
