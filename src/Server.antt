-- ===== src/Server.antt =====
-- pkg/server/server.go: the parts of the program together. The main loop, the reloads of the configuration,
-- the results of probes and the ticks of the collector are events, each one step; where the source takes
-- several locks one after the other, nothing comes in between. `metrics` lists the calls that were made on the metrics library.
pub mod Events
pub mod KernelParams
pub mod Gauges
pub mod Reached
pub mod Valid
pub mod Ready
use fast_vip.Prelude.{
  ℕ, String, Bool, true, false, List, [], ◌∷◌, ◌++◌, Option, none, some, if◌then◌else◌, ◌==◌,
  string_eq, map, MapRange, Error, error, panic, wrap, Result, ok, err, is_some, ◌>>=◌, in_context,
}
use fast_vip.Net.{Net}
use fast_vip.Config.{Config, ServiceConfig, BackendConfig, ConnectionPoolConfig}
use fast_vip.Config.Defaults.{
  traffic_is_enabled, is_cleanup_on_exit, is_metrics_enabled, get_metrics_path,
}
use fast_vip.Config.Manager as ConfigMgr
use fast_vip.Config.Manager.{Viper, ConfigManager, new_manager}
use fast_vip.Snat.{SnatManager}
use fast_vip.Lvs.Handle.{IpvsHandle}
use fast_vip.Lvs.Manager
use fast_vip.Lvs.Reconciler.{Reconciler, ReconcileError, reconcile}
use fast_vip.Lvs.Reconciler.Cleanup.{cleanup}
use fast_vip.Health as Health
use fast_vip.Health.{
  HealthManager, ServiceCheckConfig, is_healthy, update_targets, handle_check_result,
}
use fast_vip.Http.Manager.{
  Listening, HttpManager, new_http_manager, new_service, add_service, start_service,
}
use fast_vip.Metrics.{RegistryCall, set_fake_backend_active, set_backend_health, inc_config_reload}
use fast_vip.TrafficLog.{LvsStats}
use fast_vip.TrafficLog.Collector.{new_collector, update_config}
use fast_vip.TrafficLog.Loop.{Loop}
use fast_vip.TrafficLog.Loop as Traffic
use fast_vip.Admin as Admin
use fast_vip.Admin.{AdminServer}

-- The packages that differ between builds, and what a new transport starts from.
pub record Platform (H S N L : Type 0) : Type 0 where
  pub ipvs : IpvsHandle H
  pub rules : SnatManager S
  pub listening : Listening L
  pub network : N
  pub ipvs_is_fake : Bool
  pub snat_is_fake : Bool

pub record Server (H S N L : Type 0) : Type 0 where
  pub config_mgr : ConfigManager
  -- with the IPVS manager and the rule manager
  pub reconciler : Reconciler H S
  pub health_mgr : HealthManager
  pub http_mgr : HttpManager N
  pub listeners : L
  pub admin_server : Option AdminServer
  pub collector : Option Loop
  pub metrics : List RegistryCall

abbrev pub panic_of : Option Error → Option Error
panic_of (some (panic text)) = some (panic text)
panic_of _ = none

abbrev pub services_of : {H S N L : Type 0} → Server H S N L → List ServiceConfig
services_of s = s.config_mgr.current.services

-- The loops of updateHealthMetrics.
unfoldable pub backend_gauges : HealthManager → String → List BackendConfig → List RegistryCall
backend_gauges health name [] = []
backend_gauges health name (b ∷ rest) =
    set_backend_health name b.address (is_healthy health b.address)
    ++ backend_gauges health name rest

unfoldable pub service_gauges : HealthManager → List ServiceConfig → List RegistryCall
service_gauges health [] = []
service_gauges health (svc ∷ rest) =
    backend_gauges health svc.name svc.backends ++ service_gauges health rest

module _ {H S N L : Type 0} (net : Net) (rng : MapRange) (outside : Platform H S N L) where
  -- newServerWithManager, on a handle and a rule manager that were opened.
  unfoldable pub new_server : Viper → H → S → L → Result (Server H S N L)
  new_server v h s l =
      in_context "failed to initialize config manager" (new_manager net v) >>= λ cfg. ok (record {
        config_mgr = cfg;
        reconciler = record { manager = h; snat_mgr = s; managed = []; reconcile_errors = 0 };
        health_mgr = Health.new_manager;
        http_mgr = new_http_manager;
        listeners = l;
        admin_server = none;
        collector = none;
        metrics =
            set_fake_backend_active "ipvs" outside.ipvs_is_fake
            ++ set_fake_backend_active "snat" outside.snat_is_fake;
      })

  unfoldable pub update_health_metrics : Server H S N L → Server H S N L
  update_health_metrics s = record s {
    metrics = s.metrics ++ service_gauges s.health_mgr (services_of s);
  }

  -- `s.reconciler.Reconcile(cfg.Services)`
  unfoldable pub run_reconcile : Server H S N L → Option ReconcileError × Server H S N L
  run_reconcile s =
      let done =
        reconcile net rng outside.ipvs outside.rules (is_healthy s.health_mgr) (services_of s)
          s.reconciler in
      (done.0, record s { reconciler = done.1 })

  unfoldable pub trigger_reconcile : Server H S N L → Server H S N L
  trigger_reconcile s = update_health_metrics (run_reconcile s).1

  -- The callback of the health check manager.
  unfoldable pub on_health_change : Server H S N L → Server H S N L
  on_health_change s = update_health_metrics (trigger_reconcile s)

  -- UpdateTargets, a pass, and the gauges if the pass succeeds.
  unfoldable pub apply_config : Server H S N L → Server H S N L
  apply_config s =
      let targeted = record s {
        health_mgr = update_targets net rng (services_of s) s.health_mgr;
      } in
      let done = run_reconcile targeted in
      elim done.0 [ none ↦ update_health_metrics done.1 | some e ↦ done.1 ]

  unfoldable pub sync_traffic_collector : Server H S N L → Server H S N L
  sync_traffic_collector s =
      let traffic = s.config_mgr.current.global.log.traffic in
      elim s.collector [
        | none ↦
            if traffic_is_enabled traffic
            then record s {
              collector = some (Traffic.start net rng (new_collector (services_of s) traffic));
            }
            else s
        | some l ↦ record s {
          collector =
              some (record l { collector = update_config (services_of s) traffic l.collector });
        }
      ]

  -- One service of syncHTTPServices.
  unfoldable pub sync_http_service :
      ServiceConfig → HttpManager N × L → Option Error × (HttpManager N × L)
  sync_http_service svc (m, l) = elim svc.connection_pool [
    | none ↦ (some (error "connection_pool configuration required for HTTP service"), (m, l))
    | some pool ↦
        let backends = map (λ b. BackendConfig.address b) svc.backends in
        let added =
          add_service (some (new_service svc.name svc.listen backends pool outside.network)) m in
        elim added.0 [
          | some e ↦ (some e, (added.1, l))
          | none ↦ start_service outside.listening svc.name (added.1, l)
        ]
  ]

  unfoldable pub sync_http_services :
      List ServiceConfig → HttpManager N × L → Option Error × (HttpManager N × L)
  sync_http_services [] m = (none, m)
  sync_http_services (svc ∷ rest) m =
      let synced = sync_http_service svc m in
      let others = sync_http_services rest synced.1 in
      let skipped = sync_http_services rest m in
      if svc.mode == "http"
      then elim synced.0 [ some e ↦ (some e, synced.1) | none ↦ others ]
      else skipped

  -- An error of Start is logged, and a panic is not caught.
  unfoldable pub init_admin_server : Server H S N L → Option Error × Server H S N L
  init_admin_server s =
      let global = s.config_mgr.current.global in
      let made =
        Admin.new_server global.admin_address (is_metrics_enabled global)
          (get_metrics_path global) in
      let started =
        Admin.start net outside.listening (record made { has_reload = true }) s.listeners in
      (panic_of started.0, record s { admin_server = some started.1; listeners = started.2 })

  -- Run, up to the main loop.
  unfoldable pub begin : Server H S N L → Option Error × Server H S N L
  begin s =
      let synced = sync_http_services (services_of s) (s.http_mgr, s.listeners) in
      let s1 = record s { http_mgr = synced.1.0; listeners = synced.1.1 } in
      let admin =
        if s.config_mgr.current.global.admin_address == ""
        then (none, s1)
        else init_admin_server s1 in
      let s2 = admin.1 in
      let s3 = record s2 { config_mgr = record s2.config_mgr { on_reload = true } } in
      elim synced.0 [
        | some e ↦ (some (wrap "failed to start HTTP services" e), s1)
        | none ↦ elim admin.0 [
          | some e ↦ (some e, s2)
          | none ↦ (none, sync_traffic_collector (apply_config s3))
        ]
      ]

  unfoldable pub run_once : Server H S N L → Option ReconcileError × Server H S N L
  run_once s =
      let done = run_reconcile s in
      let r = done.1.reconciler in
      (
        done.0,
        record done.1 { reconciler = record r { manager = Manager.close outside.ipvs r.manager } },
      )
