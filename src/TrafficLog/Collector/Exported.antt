-- ===== src/TrafficLog/Collector/Exported.antt =====
-- What a counter of the metrics library receives from a run of polls, pkg/trafficlog/collector.go.
use fast_vip.Prelude.{
  list_beq, ℕ, ◌+◌, String, true, List, [], ◌∷◌, ◌++◌, none, some, ◌≡◌, refl, if◌then◌else◌, ◌==◌,
  ==_iff, string_eq, Option-cases, inl, inr, Dict, lookup, insert, IsUnique, arith, ◌^^◌, Every,
  insert-Every,
}
use fast_vip.Config.{ServiceConfig}
use fast_vip.Metrics.{RegistryCall, adds, service_connections_total, set_service_traffic}
use fast_vip.TrafficLog.{ServiceTrafficStats}
use fast_vip.TrafficLog.Delta.{delta_uint64, diff_service_stats}
use fast_vip.TrafficLog.Collector.{
  build_service_config_map, service_calls, all_service_calls, service_or_zero,
}

abbrev pub connections_of : List String → RegistryCall → ℕ
connections_of labels (adds service_connections_total at v) = if list_beq labels at then v else 0
connections_of labels _ = 0

-- The sum that the calls add to `service_connections_total` under the labels.
abbrev pub exported : List String → List RegistryCall → ℕ
exported labels [] = 0
exported labels (call ∷ rest) = connections_of labels call + exported labels rest

pub exported-append :
    (labels : List String) (xs ys : List RegistryCall)
    → exported labels (xs ++ ys) ≡ exported labels xs + exported labels ys
exported-append labels [] ys = omega arith
exported-append labels (x ∷ xs) ys = omega (arith, exported-append labels xs ys)

abbrev pub IsKeyOf : String → ServiceConfig → Type 0
IsKeyOf k svc = k ≡ svc.listen ^^ "/" ^^ svc.protocol

abbrev pub labels_of : ServiceConfig → List String
labels_of svc = svc.name ∷ svc.listen ∷ svc.protocol ∷ []

pub build-IsKeyOf :
    (svcs : List ServiceConfig) (acc : Dict String ServiceConfig)
    → Every IsKeyOf acc
    → Every IsKeyOf (build_service_config_map svcs acc)
unfolding build_service_config_map
build-IsKeyOf [] acc h = h
build-IsKeyOf (svc ∷ rest) acc h =
    build-IsKeyOf rest (insert (svc.listen ^^ "/" ^^ svc.protocol) svc acc)
      (insert-Every IsKeyOf (svc.listen ^^ "/" ^^ svc.protocol) svc acc refl h)

exported-set_service_traffic :
    (of svc : ServiceConfig) (d a b e f : ℕ)
    → exported (labels_of of) (set_service_traffic svc.name svc.listen svc.protocol d a b e f)
      ≡ (if list_beq (labels_of of) (labels_of svc) then d else 0)
unfolding set_service_traffic
exported-set_service_traffic of svc d a b e f = omega arith

-- The labels determine the key.
labels-key :
    (of svc : ServiceConfig)
    → list_beq (labels_of of) (labels_of svc) ≡ true
    → of.listen ^^ "/" ^^ of.protocol ≡ svc.listen ^^ "/" ^^ svc.protocol
labels-key of svc h = ground (arith, ==_iff of.listen svc.listen, ==_iff of.protocol svc.protocol)

labels_self : (svc : ServiceConfig) → list_beq (labels_of svc) (labels_of svc) ≡ true
labels_self svc = ground (
  arith,
  ==_iff svc.name svc.name,
  ==_iff svc.listen svc.listen,
  ==_iff svc.protocol svc.protocol,
)

module _ (configs : Dict String ServiceConfig) (keyed : Every IsKeyOf configs) (key : String)
    (svc : ServiceConfig) (found : lookup key configs ≡ some svc) where
  -- What the key itself adds.
  abbrev delta_of : Dict String ServiceTrafficStats → ServiceTrafficStats → ℕ
  delta_of prev s = delta_uint64 s.connections (service_or_zero (lookup key prev)).connections

  exported-service_calls :
      (prev : Dict String ServiceTrafficStats) (k : String) (s : ServiceTrafficStats)
      → exported (labels_of svc) (service_calls configs prev k s)
        ≡ (if k == key then delta_of prev s else 0)
  unfolding service_calls diff_service_stats
  exported-service_calls prev k s = elim (Option-cases (lookup k configs)) [
    | inl e ↦ ground (arith, found, ==_iff k key)
    | inr (other, e) ↦ ground (
      arith,
      found,
      ==_iff k key,
      keyed k other e,
      keyed key svc found,
      labels-key svc other,
      labels_self svc,
      exported-set_service_traffic svc other
          (delta_uint64 s.connections (service_or_zero (lookup k prev)).connections)
          (delta_uint64 s.in_bytes (service_or_zero (lookup k prev)).in_bytes)
          (delta_uint64 s.out_bytes (service_or_zero (lookup k prev)).out_bytes)
          (delta_uint64 s.in_pkts (service_or_zero (lookup k prev)).in_pkts)
          (delta_uint64 s.out_pkts (service_or_zero (lookup k prev)).out_pkts),
    )
  ]

  pub exported-all_service_calls :
      (prev current : Dict String ServiceTrafficStats)
      → IsUnique current
      → exported (labels_of svc) (all_service_calls configs prev current)
        ≡ elim (lookup key current) [
          | none ↦ 0
          | some s ↦ delta_uint64 s.connections (service_or_zero (lookup key prev)).connections
        ]
  unfolding all_service_calls lookup
  exported-all_service_calls prev [] u = refl
  exported-all_service_calls prev ((k, s) ∷ rest) u = ground (
    arith,
    ==_iff k key,
    u.0,
    exported-append (labels_of svc) (service_calls configs prev k s)
        (all_service_calls configs prev rest),
    exported-service_calls prev k s,
    exported-all_service_calls prev rest u.1,
  )
