-- ===== src/TrafficLog/Collector.antt =====
-- pkg/trafficlog/collector.go. A tick of the loop is one step, in which UpdateConfig cannot run; what
-- the provider returns is an argument. A tick gives the calls of the metrics library and the entries
-- of the traffic log. Counters of polls are int, those of traffic are uint64.
pub mod Logs
pub mod Carry
pub mod Split
pub mod Exported
pub mod Run
pub mod Arrow
use fast_vip.Prelude.{
  ℕ, ◌+◌, ◌%◌, ◌^◌, ℤ, String, Bool, true, false, not, List, [], ◌∷◌, ◌++◌, Option, none, some,
  if◌then◌else◌, ltb, nat_beq, ◌==◌, int_eq, string_eq, Dict, lookup, insert, is_some, MapRange,
  ◌^^◌, Result, ok, err,
}
use fast_vip.Net.{Net}
use fast_vip.Config.{ServiceConfig, TrafficLogConfig}
use fast_vip.Config.Defaults.{traffic_is_enabled, traffic_get_interval}
use fast_vip.Metrics.{
  RegistryCall, set_service_traffic, set_backend_traffic, set_backend_connections,
}
use fast_vip.TrafficLog.{
  ServiceTrafficStats, BackendTrafficStats, TrafficSnapshot, LvsStats, no_service_stats,
  no_backend_stats,
}
use fast_vip.TrafficLog.Delta.{diff_service_stats, diff_backend_stats}
use fast_vip.TrafficLog.Collector.Split.{split_arrow}

abbrev pub max_absent_polls : ℕ
max_absent_polls = 720

-- The entries of the previous poll, and for how many polls each has been absent.
pub record Seen (V : Type 0) : Type 0 where
  pub prev : Dict String V
  pub absent_polls : Dict String ℕ

pub record Collector : Type 0 where
  pub traffic_cfg : TrafficLogConfig
  pub services : List ServiceConfig
  pub seen_services : Seen ServiceTrafficStats
  pub seen_backends : Seen BackendTrafficStats

abbrev pub nothing_seen : {V : Type 0} → Seen V
nothing_seen = record { prev = []; absent_polls = [] }

unfoldable pub new_collector : List ServiceConfig → TrafficLogConfig → Collector
new_collector services traffic_cfg = record {
  traffic_cfg = traffic_cfg;
  services = services;
  seen_services = nothing_seen;
  seen_backends = nothing_seen;
}

unfoldable pub update_config : List ServiceConfig → TrafficLogConfig → Collector → Collector
update_config services traffic_cfg c = record c { services = services; traffic_cfg = traffic_cfg }

-- A provider that fails leaves its map empty.
unfoldable pub gather_snapshot : LvsStats → TrafficSnapshot
gather_snapshot stats = record {
  services = elim stats.service_stats [ ok m ↦ m | err e ↦ [] ];
  backends = elim stats.backend_stats [ ok m ↦ m | err e ↦ [] ];
}

-- The service of a key "listen/protocol"; of two with one key the later is kept.
unfoldable pub build_service_config_map :
    List ServiceConfig → Dict String ServiceConfig → Dict String ServiceConfig
build_service_config_map [] acc = acc
build_service_config_map (svc ∷ rest) acc =
    build_service_config_map rest (insert (svc.listen ^^ "/" ^^ svc.protocol) svc acc)

-- The value of a missing key is zero.
abbrev pub polls_of : Option ℕ → ℕ
polls_of none = 0
polls_of (some n) = n

abbrev pub service_or_zero : Option ServiceTrafficStats → ServiceTrafficStats
service_or_zero none = no_service_stats
service_or_zero (some s) = s

abbrev pub backend_or_zero : Option BackendTrafficStats → BackendTrafficStats
backend_or_zero none = no_backend_stats
backend_or_zero (some s) = s

-- The loops that keep the entries absent from the snapshot, those not absent for too long.
unfoldable pub carry_forward :
    {V : Type 0} → Dict String V → Dict String ℕ → Dict String V → Seen V → Seen V
carry_forward current absent [] acc = acc
carry_forward current absent ((key, stats) ∷ rest) acc =
    let polls = polls_of (lookup key absent) + 1 in
    carry_forward current absent rest (
      if is_some (lookup key current)
      then acc
      else if ltb max_absent_polls polls
      then acc
      else record {
        prev = insert key stats acc.prev;
        absent_polls = insert key polls acc.absent_polls;
      })

-- `newPrev[key] = stats` for every entry of the snapshot.
unfoldable pub note_current : {V : Type 0} → Dict String V → Dict String V → Dict String V
note_current [] prev = prev
note_current ((key, stats) ∷ rest) prev = note_current rest (insert key stats prev)

-- extractBackendAddress: the part after the one "->".
unfoldable pub extract_backend_address : String → String
extract_backend_address full_key = elim (split_arrow full_key) [
  | svc ∷ dst ∷ [] ↦ dst
  | _ ↦ full_key
]

module _ (configs : Dict String ServiceConfig) where
  -- What one service of a snapshot adds to the counters.
  unfoldable pub service_calls :
      Dict String ServiceTrafficStats → String → ServiceTrafficStats → List RegistryCall
  service_calls prev key stats = elim (lookup key configs) [
    | none ↦ []
    | some svc ↦
        let delta = diff_service_stats (service_or_zero (lookup key prev)) stats in
        set_service_traffic svc.name svc.listen svc.protocol delta.connections delta.in_bytes
          delta.out_bytes delta.in_pkts delta.out_pkts
  ]

  unfoldable pub all_service_calls :
      Dict String ServiceTrafficStats → Dict String ServiceTrafficStats → List RegistryCall
  all_service_calls prev [] = []
  all_service_calls prev ((key, stats) ∷ rest) =
      service_calls prev key stats ++ all_service_calls prev rest

  unfoldable pub backend_calls :
      Dict String BackendTrafficStats → String → BackendTrafficStats → List RegistryCall
  backend_calls prev key stats = elim (lookup stats.service_key configs) [
    | none ↦ []
    | some svc ↦
        let address = extract_backend_address key in
        let delta = diff_backend_stats (backend_or_zero (lookup key prev)) stats in
        set_backend_traffic svc.name address svc.protocol delta.connections delta.in_bytes
          delta.out_bytes
        ++ set_backend_connections svc.name address svc.protocol stats.active_connections
            stats.inactive_connections
  ]

  unfoldable pub all_backend_calls :
      Dict String BackendTrafficStats → Dict String BackendTrafficStats → List RegistryCall
  all_backend_calls prev [] = []
  all_backend_calls prev ((key, stats) ∷ rest) =
      backend_calls prev key stats ++ all_backend_calls prev rest

module _ (rng : MapRange) where
  -- What is remembered after a poll.
  unfoldable pub next_seen : {V : Type 0} → Dict String V → Seen V → Seen V
  next_seen {V} current seen =
      let carried =
        carry_forward current seen.absent_polls (rng.order String V seen.prev) nothing_seen in
      record carried { prev = note_current (rng.order String V current) carried.prev }

  unfoldable pub update_metrics : TrafficSnapshot → Collector → List RegistryCall × Collector
  update_metrics snapshot c =
      let configs = build_service_config_map c.services [] in
      (
        all_service_calls configs c.seen_services.prev
              (rng.order String ServiceTrafficStats snapshot.services)
            ++ all_backend_calls configs c.seen_backends.prev
                (rng.order String BackendTrafficStats snapshot.backends),
        record c {
          seen_services = next_seen snapshot.services c.seen_services;
          seen_backends = next_seen snapshot.backends c.seen_backends;
        },
      )
