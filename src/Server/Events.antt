-- ===== src/Server/Events.antt =====
-- The main loop of pkg/server/server.go, and what runs beside it, as events.
use fast_vip.Prelude.{
  String, Bool, List, [], ◌∷◌, ◌++◌, Option, none, some, if◌then◌else◌, MapRange,
}
use fast_vip.Net.{Net}
use fast_vip.Config.Defaults.{is_cleanup_on_exit}
use fast_vip.Config.Manager.{Viper, reload, on_change}
use fast_vip.Lvs.Manager
use fast_vip.Lvs.Reconciler.Cleanup.{cleanup}
use fast_vip.Health as Health
use fast_vip.Health.{ServiceCheckConfig, handle_check_result}
use fast_vip.Metrics.{inc_config_reload}
use fast_vip.TrafficLog.Adapter.{lvs_stats}
use fast_vip.TrafficLog.Loop as Traffic
use fast_vip.Admin as Admin
use fast_vip.Admin.{AdminServer}
use fast_vip.Server.{Platform, Server, on_health_change, apply_config, sync_traffic_collector}

pub data Event : Type 0 where
  -- the file changed, or POST /reload: what viper reads
  reloads : Viper → Event
  -- `<-s.configMgr.OnChange()`
  config_changes : Event
  -- a probe of an address ends
  probes : String → Bool → ServiceCheckConfig → Event
  -- the ticker of the collector
  ticks : Event

module _ {H S N L : Type 0} (net : Net) (rng : MapRange) (outside : Platform H S N L) where
  -- A reload that succeeds runs the callback, which counts it.
  unfoldable pub on_reload : Viper → Server H S N L → Server H S N L
  on_reload v s =
      let done = reload net v s.config_mgr in
      let after = record s { config_mgr = done.1 } in
      elim done.0 [
        | some e ↦ after
        | none ↦
            if s.config_mgr.on_reload
            then record after { metrics = s.metrics ++ inc_config_reload }
            else after
      ]

  -- The case of the main loop: without a signal it waits. UpdateTargets, Reconcile and the gauges
  -- take their locks one after the other; no other event is in between here.
  unfoldable pub on_config_change : Server H S N L → Server H S N L
  on_config_change s =
      if s.config_mgr.signalled
      then sync_traffic_collector net rng outside
          (apply_config net rng outside (record s { config_mgr = on_change net s.config_mgr }))
      else s

  -- The source gives up the lock of the health checks before the callback, and reads the
  -- configuration before it takes that of the reconciler: this is the order without another event
  -- in between.
  unfoldable pub on_probe : String → Bool → ServiceCheckConfig → Server H S N L → Server H S N L
  on_probe address failed config s =
      let checked = handle_check_result address failed config s.health_mgr in
      let after = record s { health_mgr = checked.0 } in
      if checked.1 then on_health_change net rng outside after else after

  unfoldable pub on_tick : Server H S N L → Server H S N L
  on_tick s = elim s.collector [
    | none ↦ s
    | some l ↦
        let ticked = Traffic.tick net rng (lvs_stats net outside.ipvs s.reconciler.manager) l in
        record s { collector = some ticked.1; metrics = s.metrics ++ ticked.0.calls }
  ]

  unfoldable pub step : Event → Server H S N L → Server H S N L
  step (reloads v) s = on_reload v s
  step config_changes s = on_config_change s
  step (probes address failed config) s = on_probe address failed config s
  step ticks s = on_tick s

  unfoldable pub run : List Event → Server H S N L → Server H S N L
  run [] s = s
  run (event ∷ rest) s = run rest (step event s)

  abbrev stop_admin : Option AdminServer → L → L
  stop_admin none l = l
  stop_admin (some a) l = (Admin.stop outside.listening a l).1

  -- The rules are left in place unless the configuration asks for a cleanup.
  unfoldable pub shutdown : Server H S N L → Server H S N L
  shutdown s =
      let l1 = stop_admin s.admin_server s.listeners in
      let cleaned = (cleanup outside.ipvs net rng s.reconciler).1 in
      let removed = (outside.rules.cleanup cleaned.snat_mgr).1 in
      let r =
        if is_cleanup_on_exit s.config_mgr.current.global
        then record cleaned { snat_mgr = removed }
        else s.reconciler in
      record s {
        listeners = l1;
        collector = none;
        health_mgr = Health.stop rng s.health_mgr;
        reconciler = record r { manager = Manager.close outside.ipvs r.manager };
      }
