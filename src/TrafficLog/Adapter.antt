-- ===== src/TrafficLog/Adapter.antt =====
-- pkg/trafficlog/lvs_stats_adapter.go: the statistics of IPVS, over any handle.
use fast_vip.Prelude.{
  ℕ, ◌+◌, ◌%◌, ◌^◌, ℤ, pos, negsuc, String, List, [], ◌∷◌, Dict, insert, string_eq, ◌^^◌, Result,
  ok, ◌>>=◌, in_context,
}
use fast_vip.Net.{Net}
use fast_vip.Lvs.{Service, Destination}
use fast_vip.Lvs.Keys.{
  service_key_from_ipvs, destination_key_from_ipvs, service_key_string, destination_key_string,
}
use fast_vip.Lvs.Handle.{IpvsHandle}
use fast_vip.Lvs.Manager
use fast_vip.TrafficLog.{ServiceTrafficStats, BackendTrafficStats, LvsStats}

-- connectionCountUint64
unfoldable pub connection_count : ℤ → ℕ
connection_count (pos n) = n
connection_count (negsuc n) = 0

unfoldable pub service_stats_of : Service → ServiceTrafficStats
service_stats_of svc = record {
  connections = svc.stats.connections;
  in_pkts = svc.stats.packets_in;
  out_pkts = svc.stats.packets_out;
  in_bytes = svc.stats.bytes_in;
  out_bytes = svc.stats.bytes_out;
}

unfoldable pub backend_stats_of : String → Destination → BackendTrafficStats
backend_stats_of svc_key dst =
    let active = connection_count dst.active_connections in
    let inactive = connection_count dst.inactive_connections in
    record {
      service_key = svc_key;
      connections = dst.stats.connections;
      active_connections = active;
      inactive_connections = inactive;
      current_connections = (active + inactive) % 2 ^ 64;
      in_pkts = dst.stats.packets_in;
      out_pkts = dst.stats.packets_out;
      in_bytes = dst.stats.bytes_in;
      out_bytes = dst.stats.bytes_out;
    }

-- "svcKey->dstKey"
abbrev pub full_key : String → String → String
full_key svc_key dst_key = svc_key ^^ "->" ^^ dst_key

module _ (net : Net) where
  unfoldable pub add_services :
      List Service → Dict String ServiceTrafficStats → Dict String ServiceTrafficStats
  add_services [] acc = acc
  add_services (svc ∷ rest) acc =
      add_services rest
        (insert (service_key_string net (service_key_from_ipvs net svc)) (service_stats_of svc) acc)

  unfoldable pub add_destinations :
      String → List Destination → Dict String BackendTrafficStats → Dict String BackendTrafficStats
  add_destinations svc_key [] acc = acc
  add_destinations svc_key (dst ∷ rest) acc = add_destinations svc_key rest (
      insert (full_key svc_key (destination_key_string net (destination_key_from_ipvs net dst)))
        (backend_stats_of svc_key dst) acc)

  module _ {H : Type 0} (ops : IpvsHandle H) (h : H) where
    unfoldable pub service_stats : Result (Dict String ServiceTrafficStats)
    service_stats =
        in_context "failed to get IPVS services" (Manager.get_services ops h) >>= λ svcs.
        ok (add_services svcs [])

    -- The first service whose destinations cannot be read ends the loop.
    unfoldable pub add_backends :
        List Service → Dict String BackendTrafficStats → Result (Dict String BackendTrafficStats)
    add_backends [] acc = ok acc
    add_backends (svc ∷ rest) acc =
        in_context "failed to get destinations for service" (Manager.get_destinations ops svc h)
        >>= λ dsts.
            add_backends rest
              (add_destinations (service_key_string net (service_key_from_ipvs net svc)) dsts acc)

    unfoldable pub backend_stats : Result (Dict String BackendTrafficStats)
    backend_stats =
        in_context "failed to get IPVS services" (Manager.get_services ops h) >>= λ svcs.
        add_backends svcs []

    abbrev pub lvs_stats : LvsStats
    lvs_stats = record { service_stats = service_stats; backend_stats = backend_stats }
