-- ===== src/TrafficLog/Loop.antt =====
-- pkg/trafficlog/collector.go: a tick of the collection loop.
use fast_vip.Prelude.{ℤ, List, [], if◌then◌else◌, MapRange}
use fast_vip.Net.{Net}
use fast_vip.Config.Defaults.{traffic_is_enabled, traffic_get_interval}
use fast_vip.Metrics.{RegistryCall}
use fast_vip.TrafficLog.{LvsStats}
use fast_vip.TrafficLog.Fields.{Field}
use fast_vip.TrafficLog.Collector.{Collector, gather_snapshot, update_metrics}
use fast_vip.TrafficLog.Collector.Logs.{log_raw_stats}

-- What a tick writes to the outside.
pub record Output : Type 0 where
  pub calls : List RegistryCall
  pub entries : List (List Field)

abbrev pub no_output : Output
no_output = record { calls = []; entries = [] }

-- The collector with the interval that its ticker has.
pub record Loop : Type 0 where
  pub collector : Collector
  pub interval : ℤ

module _ (net : Net) (rng : MapRange) where
  -- Start
  unfoldable pub start : Collector → Loop
  start c = record { collector = c; interval = traffic_get_interval net c.traffic_cfg }

  unfoldable pub collect : LvsStats → Collector → Output × Collector
  collect stats c =
      let snapshot = gather_snapshot stats in
      let (calls, c') = update_metrics rng snapshot c in
      (record { calls = calls; entries = log_raw_stats rng c.services snapshot }, c')

  -- The ticker takes a changed interval; a tick while the log is off does nothing else.
  unfoldable pub tick : LvsStats → Loop → Output × Loop
  tick stats l =
      let interval = traffic_get_interval net l.collector.traffic_cfg in
      let (out, c) = collect stats l.collector in
      if traffic_is_enabled l.collector.traffic_cfg
      then (out, record { collector = c; interval = interval })
      else (no_output, record l { interval = interval })
