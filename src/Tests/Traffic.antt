-- ===== src/Tests/Traffic.antt =====
-- The theorems about the traffic counters at a service that is lost for one poll.
use fast_vip.Prelude.{
  ℕ, ◌+◌, String, List, [], ◌∷◌, none, ◌≡◌, refl, arith, Dict, lookup, insert, written_order,
  string_eq,
}
use fast_vip.TrafficLog.{ServiceTrafficStats, TrafficSnapshot, no_service_stats}
use fast_vip.TrafficLog.Collector.{
  Collector, Seen, nothing_seen, next_seen, service_or_zero, build_service_config_map,
}
use fast_vip.TrafficLog.Collector.Carry
use fast_vip.TrafficLog.Collector.Carry.{memory_of, remember}
use fast_vip.TrafficLog.Collector.Exported.{exported, labels_of}
use fast_vip.TrafficLog.Collector.Run
use fast_vip.TrafficLog.Collector.Run.{run_polls, last_seen, samples_of}
use fast_vip.TrafficLog.Adapter.{full_key}
use fast_vip.TrafficLog.Collector.{extract_backend_address}
use fast_vip.TrafficLog.Collector.Arrow
use fast_vip.Tests.Data.{web}

abbrev key : String
key = "10.0.0.1:80/tcp"

abbrev counted : ℕ → ServiceTrafficStats
counted n = record no_service_stats { connections = n }

abbrev shows : Dict String ServiceTrafficStats → TrafficSnapshot
shows services = record { services = services; backends = [] }

abbrev snapshots : List TrafficSnapshot
snapshots = shows ((key, counted 100) ∷ []) ∷ shows [] ∷ shows ((key, counted 150) ∷ []) ∷ []

abbrev seen_once : Seen ServiceTrafficStats
seen_once = record { prev = (key, counted 100) ∷ []; absent_polls = [] }

abbrev begun : Collector
begun = record {
  traffic_cfg = record { enabled = none; interval = "" };
  services = web ∷ [];
  seen_services = nothing_seen;
  seen_backends = nothing_seen;
}

abbrev gone : Dict String ServiceTrafficStats
gone = []

next_seen-remember_example :
    memory_of key (next_seen written_order gone seen_once)
    ≡ remember (lookup key gone) (memory_of key seen_once)
next_seen-remember_example =
    Carry.next_seen-remember written_order gone seen_once key tt (unfold lookup in (refl, tt))

exported-run_polls_example :
    exported (labels_of web) (run_polls written_order snapshots begun).0
      + (service_or_zero (lookup key begun.seen_services.prev)).connections
    ≡ (service_or_zero
        (last_seen (lookup key begun.seen_services.prev) (samples_of key snapshots))).connections
exported-run_polls_example =
    Run.exported-run_polls written_order key web snapshots begun
      (unfold build_service_config_map insert lookup in refl)
      (unfold lookup in ((refl, tt), (tt, ((refl, tt), tt)))) tt
      (unfold lookup remember in (ground arith, (ground arith, (ground arith, tt))))

extract-full_key_example : extract_backend_address (full_key "a:1/tcp" "b:80") ≡ "b:80"
extract-full_key_example =
    Arrow.extract-full_key "a:1/tcp" "b:80"
      (refl, (refl, (refl, (refl, (refl, (refl, (refl, tt))))))) (refl, (refl, (refl, (refl, tt))))
