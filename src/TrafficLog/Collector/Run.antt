-- ===== src/TrafficLog/Collector/Run.antt =====
-- A run of polls with one configuration, pkg/trafficlog/collector.go.
use fast_vip.Prelude.{
  ◌+◌, ◌≤◌, ◌<◌, String, List, [], ◌∷◌, ◌++◌, Option, none, some, ◌≡◌, refl, sym, ap, subst, ◌∙◌,
  string_eq, Option-cases, inl, inr, Dict, lookup, IsUnique, MapRange, arith, Every-empty, All, map,
}
use fast_vip.Config.{ServiceConfig}
use fast_vip.Metrics.{RegistryCall, set_backend_traffic, set_backend_connections}
use fast_vip.TrafficLog.{ServiceTrafficStats, BackendTrafficStats, TrafficSnapshot}
use fast_vip.TrafficLog.Delta.{delta_uint64}
use fast_vip.TrafficLog.Collector.{
  Collector, build_service_config_map, backend_calls, all_service_calls, all_backend_calls,
  service_or_zero, update_metrics, max_absent_polls,
}
use fast_vip.TrafficLog.Collector.Carry.{
  Memory, memory_of, remember, next_seen-remember, next_seen-IsUnique,
}
use fast_vip.TrafficLog.Collector.Exported.{
  exported, exported-append, labels_of, IsKeyOf, build-IsKeyOf, exported-all_service_calls,
}

unfoldable pub run_polls :
    MapRange → List TrafficSnapshot → Collector → List RegistryCall × Collector
run_polls rng [] c = ([], c)
run_polls rng (snapshot ∷ rest) c =
    let first = update_metrics rng snapshot c in
    let others = run_polls rng rest first.1 in (first.0 ++ others.0, others.1)

-- A key's counter does not go back, and the key is never absent for more polls than it is kept.
abbrev pub IsSteady : Memory ServiceTrafficStats → List (Option ServiceTrafficStats) → Type 0
IsSteady m [] = Unit
IsSteady m (some s ∷ rest) =
    ((service_or_zero m.last).connections ≤ s.connections) × IsSteady (remember (some s) m) rest
IsSteady m (none ∷ rest) = (m.absent < max_absent_polls) × IsSteady (remember none m) rest

abbrev pub last_seen :
    Option ServiceTrafficStats → List (Option ServiceTrafficStats) → Option ServiceTrafficStats
last_seen found [] = found
last_seen found (some s ∷ rest) = last_seen (some s) rest
last_seen found (none ∷ rest) = last_seen found rest

abbrev pub samples_of : String → List TrafficSnapshot → List (Option ServiceTrafficStats)
samples_of key snapshots = map (λ snapshot. lookup key snapshot.services) snapshots

exported-all_backend_calls :
    (labels : List String) (configs : Dict String ServiceConfig)
    (prev current : Dict String BackendTrafficStats)
    → exported labels (all_backend_calls configs prev current) ≡ 0
unfolding all_backend_calls backend_calls set_backend_traffic set_backend_connections
exported-all_backend_calls labels configs prev [] = refl
exported-all_backend_calls labels configs prev ((k, s) ∷ rest) =
    elim (Option-cases (lookup s.service_key configs)) [
      | inl e ↦ ground (
        arith,
        exported-all_backend_calls labels configs prev rest,
        exported-append labels (backend_calls configs prev k s)
            (all_backend_calls configs prev rest),
      )
      | inr (svc, e) ↦ ground (
        arith,
        exported-all_backend_calls labels configs prev rest,
        exported-append labels (backend_calls configs prev k s)
            (all_backend_calls configs prev rest),
      )
    ]

module _ (rng : MapRange) (key : String) (svc : ServiceConfig) where
  exported-update_metrics :
      (snapshot : TrafficSnapshot) (c : Collector)
      → lookup key (build_service_config_map c.services []) ≡ some svc
      → IsUnique snapshot.services
      → exported (labels_of svc) (update_metrics rng snapshot c).0
        ≡ elim (lookup key snapshot.services) [
          | none ↦ 0
          | some s ↦
              delta_uint64 s.connections
                (service_or_zero (lookup key c.seen_services.prev)).connections
        ]
  unfolding update_metrics
  exported-update_metrics snapshot c found u =
      let configs = build_service_config_map c.services [] in
      let ordered = rng.order String ServiceTrafficStats snapshot.services in
      let services = all_service_calls configs c.seen_services.prev ordered in
      let backends =
        all_backend_calls configs c.seen_backends.prev
          (rng.order String BackendTrafficStats snapshot.backends) in
      ground (
        arith,
        exported-append (labels_of svc) services backends,
        exported-all_backend_calls (labels_of svc) configs c.seen_backends.prev
            (rng.order String BackendTrafficStats snapshot.backends),
        exported-all_service_calls configs (build-IsKeyOf c.services [] (Every-empty IsKeyOf)) key
            svc found c.seen_services.prev ordered
            (rng.order-IsUnique String ServiceTrafficStats snapshot.services u),
        rng.lookup-order String ServiceTrafficStats key snapshot.services u,
      )

  memory-update_metrics :
      (snapshot : TrafficSnapshot) (c : Collector)
      → IsUnique snapshot.services
      → IsUnique c.seen_services.prev
      → memory_of key (update_metrics rng snapshot c).1.seen_services
        ≡ remember (lookup key snapshot.services) (memory_of key c.seen_services)
  unfolding update_metrics
  memory-update_metrics snapshot c u w =
      next_seen-remember rng snapshot.services c.seen_services key u w

  update_metrics-IsUnique :
      (snapshot : TrafficSnapshot) (c : Collector)
      → IsUnique (update_metrics rng snapshot c).1.seen_services.prev
  unfolding update_metrics
  update_metrics-IsUnique snapshot c = next_seen-IsUnique rng snapshot.services c.seen_services

  services-update_metrics :
      (snapshot : TrafficSnapshot) (c : Collector)
      → (update_metrics rng snapshot c).1.services ≡ c.services
  unfolding update_metrics
  services-update_metrics snapshot c = refl

  last-remember :
      (m : Memory ServiceTrafficStats)
      → m.absent < max_absent_polls
      → (remember none m).last ≡ m.last
  unfolding remember
  last-remember m h = ground arith

  remember-sample :
      (m : Memory ServiceTrafficStats) (sample : Option ServiceTrafficStats)
      (rest : List (Option ServiceTrafficStats))
      → IsSteady m (sample ∷ rest)
      → IsSteady (remember sample m) rest
        × ((elim sample [
          | none ↦ 0
          | some s ↦ delta_uint64 s.connections (service_or_zero m.last).connections
        ])
              + (service_or_zero m.last).connections
            ≡ (service_or_zero (remember sample m).last).connections)
        × (last_seen (remember sample m).last rest ≡ last_seen m.last (sample ∷ rest))
  unfolding remember delta_uint64
  remember-sample m (some s) rest h = (h.1, ground (arith, h.0), refl)
  remember-sample m none rest h =
      (h.1, ground (arith, last-remember m h.0), ap (λ l. last_seen l rest) (last-remember m h.0))

  exported-run_from :
      (snapshots : List TrafficSnapshot) (c : Collector) (m : Memory ServiceTrafficStats)
      → lookup key (build_service_config_map c.services []) ≡ some svc
      → All (λ snapshot. IsUnique snapshot.services) snapshots
      → IsUnique c.seen_services.prev
      → memory_of key c.seen_services ≡ m
      → IsSteady m (samples_of key snapshots)
      → exported (labels_of svc) (run_polls rng snapshots c).0
          + (service_or_zero m.last).connections
        ≡ (service_or_zero (last_seen m.last (samples_of key snapshots))).connections
  unfolding run_polls
  exported-run_from [] c m found u w p steady = omega arith
  exported-run_from (snapshot ∷ rest) c m found u w p steady =
      let first = update_metrics rng snapshot c in
      let sample = lookup key snapshot.services in
      let one = remember-sample m sample (samples_of key rest) steady in
      let others =
        exported-run_from rest first.1 (remember sample m)
          (subst (λ s. lookup key (build_service_config_map s []) ≡ some svc)
            (sym (services-update_metrics snapshot c)) found)
          u.1 (update_metrics-IsUnique snapshot c)
          (memory-update_metrics snapshot c u.0 w ∙ ap (remember sample) p) one.0 in
      ground (
        arith,
        one.1,
        one.2,
        others,
        ap Memory.last p,
        exported-update_metrics snapshot c found u.0,
        exported-append (labels_of svc) first.0 (run_polls rng rest first.1).0,
      )

  -- For a service of the configuration, over any run of polls with it in which each snapshot holds
  -- a key once, its connection counter does not go back and the service is never absent for more
  -- than 720 polls in a row: what is added to service_connections_total under its labels, and the
  -- count that was remembered before, are together the count at its last sight, so nothing is
  -- counted twice or lost.
  pub exported-run_polls :
      (snapshots : List TrafficSnapshot) (c : Collector)
      → lookup key (build_service_config_map c.services []) ≡ some svc
      → All (λ snapshot. IsUnique snapshot.services) snapshots
      → IsUnique c.seen_services.prev
      → IsSteady (memory_of key c.seen_services) (samples_of key snapshots)
      → exported (labels_of svc) (run_polls rng snapshots c).0
          + (service_or_zero (lookup key c.seen_services.prev)).connections
        ≡ (service_or_zero
            (last_seen (lookup key c.seen_services.prev) (samples_of key snapshots))).connections
  exported-run_polls snapshots c found u w steady =
      exported-run_from snapshots c (memory_of key c.seen_services) found u w refl steady
