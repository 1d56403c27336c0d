-- ===== src/Server/Ready.antt =====
-- The in-memory handle through a run of the events of pkg/server/server.go.
use fast_vip.Prelude.{
  Option, none, Error, String, Bool, true, false, List, [], ◌∷◌, some, ok, ◌≡◌, sym, subst, arith,
  MapRange, All, Result-cases, Option-cases, Bool-cases, inl, inr, if_intro, if◌then◌else◌, ◌==◌,
  string_eq,
}
use fast_vip.Net.{Net}
use fast_vip.Config.{Config, ServiceConfig}
use fast_vip.Config.Manager.{Viper, ConfigManager, load, reload, on_change}
use fast_vip.Health.{ServiceCheckConfig, is_healthy, handle_check_result, update_targets}
use fast_vip.Snat.{SnatManager}
use fast_vip.Lvs.Keys.{ServiceKey, service_key_eq}
use fast_vip.Lvs.Reconciler.Loops.{Desired}
use fast_vip.Lvs.Reconciler.Serves.{Serves}
use fast_vip.Lvs.Desired.Asked.{last_keyed}
use fast_vip.Lvs.Desired.{build_desired_state}
use fast_vip.Lvs.Desired.Keyed.{HasCanonicalHost}
use fast_vip.Lvs.Fake.{FakeHandle, fake_handle}
use fast_vip.Lvs.Fake.WellFormed.{IsWellFormed}
use fast_vip.Lvs.Reconciler.{Reconciler, reconcile}
use fast_vip.Lvs.Reconciler.Again.{reconcile-IsWellFormed, closed-reconcile}
use fast_vip.Server.{
  Platform, Server, services_of, run_reconcile, update_health_metrics, trigger_reconcile,
  on_health_change, apply_config, sync_traffic_collector, sync_http_services, init_admin_server,
  begin,
}
use fast_vip.Server.Events.{
  Event, reloads, config_changes, probes, ticks, on_reload, on_probe, on_config_change, on_tick,
  step, run,
}
use fast_vip.Server.Reached.{
  over_fake, on_probe-Serves, reconciler-sync_traffic_collector, reconciler-apply_config,
}
use fast_vip.Server.Valid.{
  current-begin, config-on_reload, current-on_config_change, config-on_probe, config-on_tick,
}

-- The handle is well-formed and open.
abbrev pub IsOpen : {S : Type 0} → Net → Reconciler FakeHandle S → Type 0
IsOpen net r = IsWellFormed net r.manager × (r.manager.closed ≡ false)

abbrev pub HasCanonicalHosts : Net → Config → Type 0
HasCanonicalHosts net cfg = All (HasCanonicalHost net) cfg.services

abbrev pub IsReady : {S N L : Type 0} → Net → Server FakeHandle S N L → Type 0
IsReady net s = IsOpen net s.reconciler × HasCanonicalHosts net s.config_mgr.current

-- Each configuration that a reload of the run accepts has its listen hosts in canonical form.
abbrev pub ReloadsCanonical : Net → List Event → Type 0
ReloadsCanonical net [] = Unit
ReloadsCanonical net (reloads v ∷ rest) =
    ((cfg : Config) → load net v ≡ ok cfg → HasCanonicalHosts net cfg) × ReloadsCanonical net rest
ReloadsCanonical net (event ∷ rest) = ReloadsCanonical net rest

module _ {S : Type 0} (net : Net) (rng : MapRange) where
  reconcile-IsOpen :
      (mgr : SnatManager S) (healthy : String → Bool) (cfgs : List ServiceConfig)
      (r : Reconciler FakeHandle S)
      → IsOpen net r
      → All (HasCanonicalHost net) cfgs
      → IsOpen net (reconcile net rng (fake_handle net rng) mgr healthy cfgs r).1
  unfolding reconcile
  reconcile-IsOpen mgr healthy cfgs r (w, open_) hosts =
      elim (Result-cases (build_desired_state net healthy cfgs [])) [
        | inr (e, f) ↦ rw (f, reconcile) (w, open_)
        | inl (desired, built) ↦ (
          reconcile-IsWellFormed net rng mgr healthy cfgs r desired w open_ built hosts,
          closed-reconcile net rng mgr healthy cfgs r desired w open_ built hosts,
        )
      ]

reload-HasCanonicalHosts :
    (net : Net) (v : Viper) (m : ConfigManager)
    → ((cfg : Config) → load net v ≡ ok cfg → HasCanonicalHosts net cfg)
    → HasCanonicalHosts net m.current
    → HasCanonicalHosts net (reload net v m).1.current
unfolding reload
reload-HasCanonicalHosts net v m loads h = elim (Result-cases (load net v)) [
  | inl (cfg, e) ↦ rw (e, reload) (loads cfg e)
  | inr (x, e) ↦ rw (e, reload) h
]

module _ {S N L : Type 0} (net : Net) (rng : MapRange) (outside : Platform FakeHandle S N L) where
  abbrev on_fake : Platform FakeHandle S N L
  on_fake = over_fake net rng outside

  apply_config-IsOpen :
      (s : Server FakeHandle S N L)
      → IsReady net s
      → IsOpen net (apply_config net rng on_fake s).reconciler
  apply_config-IsOpen s (o, hosts) =
      subst (IsOpen net) (sym (reconciler-apply_config net rng on_fake s)) (
        reconcile-IsOpen net rng outside.rules
          (is_healthy (update_targets net rng (services_of s) s.health_mgr)) (services_of s)
          s.reconciler o hosts)

  sync-IsOpen :
      (s : Server FakeHandle S N L)
      → IsReady net s
      → IsOpen net
          (sync_traffic_collector net rng on_fake (apply_config net rng on_fake s)).reconciler
  sync-IsOpen s ready =
      subst (IsOpen net)
        (sym (reconciler-sync_traffic_collector net rng on_fake (apply_config net rng on_fake s)))
        (apply_config-IsOpen s ready)

  reconciler-on_reload :
      (v : Viper) (s : Server FakeHandle S N L)
      → (on_reload net rng on_fake v s).reconciler ≡ s.reconciler
  unfolding on_reload
  reconciler-on_reload v s = elim (Option-cases (reload net v s.config_mgr).0) [
    | inl e ↦ ground (arith, e)
    | inr (x, e) ↦ ground (arith, e)
  ]

  reconciler-on_tick :
      (s : Server FakeHandle S N L) → (on_tick net rng on_fake s).reconciler ≡ s.reconciler
  unfolding on_tick
  reconciler-on_tick s = elim (Option-cases s.collector) [
    | inl e ↦ ground (arith, e)
    | inr (l, e) ↦ ground (arith, e)
  ]

  on_probe-IsOpen :
      (address : String) (failed : Bool) (config : ServiceCheckConfig) (s : Server FakeHandle S N L)
      → IsReady net s
      → IsOpen net (on_probe net rng on_fake address failed config s).reconciler
  unfolding on_probe on_health_change trigger_reconcile update_health_metrics run_reconcile
  on_probe-IsOpen address failed config s (o, hosts) =
      let checked = handle_check_result address failed config s.health_mgr in
      elim (Bool-cases checked.1) [
        | inl e ↦
            rw (e, on_probe)
              (reconcile-IsOpen net rng outside.rules (is_healthy checked.0) (services_of s)
                s.reconciler o hosts)
        | inr e ↦ rw (e, on_probe) o
      ]

  on_config_change-IsOpen :
      (s : Server FakeHandle S N L)
      → IsReady net s
      → IsOpen net (on_config_change net rng on_fake s).reconciler
  unfolding on_config_change
  on_config_change-IsOpen s ready = elim (Bool-cases s.config_mgr.signalled) [
    | inl e ↦
        rw (e, on_config_change)
          (sync-IsOpen (record s { config_mgr = on_change net s.config_mgr }) ready)
    | inr e ↦ rw (e, on_config_change) ready.0
  ]

  step_reload-IsReady :
      (v : Viper) (s : Server FakeHandle S N L)
      → ((cfg : Config) → load net v ≡ ok cfg → HasCanonicalHosts net cfg)
      → IsReady net s
      → IsReady net (on_reload net rng on_fake v s)
  step_reload-IsReady v s loads (o, hosts) = (
    subst (IsOpen net) (sym (reconciler-on_reload v s)) o,
    subst (λ m. HasCanonicalHosts net (ConfigManager.current m))
        (sym (config-on_reload net rng on_fake v s))
        (reload-HasCanonicalHosts net v s.config_mgr loads hosts),
  )

  run_from-IsReady :
      (events : List Event) (s : Server FakeHandle S N L)
      → ReloadsCanonical net events
      → IsReady net s
      → IsReady net (run net rng on_fake events s)
  unfolding run step
  run_from-IsReady [] s c ready = ready
  run_from-IsReady (reloads v ∷ rest) s c ready =
      run_from-IsReady rest (on_reload net rng on_fake v s) c.1 (step_reload-IsReady v s c.0 ready)
  run_from-IsReady (config_changes ∷ rest) s c ready =
      run_from-IsReady rest (on_config_change net rng on_fake s) c (
        on_config_change-IsOpen s ready,
        subst (HasCanonicalHosts net) (sym (current-on_config_change net rng on_fake s)) ready.1,
      )
  run_from-IsReady (probes address failed config ∷ rest) s c ready =
      run_from-IsReady rest (on_probe net rng on_fake address failed config s) c (
        on_probe-IsOpen address failed config s ready,
        subst (λ m. HasCanonicalHosts net (ConfigManager.current m))
            (sym (config-on_probe net rng on_fake address failed config s)) ready.1,
      )
  run_from-IsReady (ticks ∷ rest) s c ready = run_from-IsReady rest (on_tick net rng on_fake s) c (
    subst (IsOpen net) (sym (reconciler-on_tick s)) ready.0,
    subst (λ m. HasCanonicalHosts net (ConfigManager.current m))
        (sym (config-on_tick net rng on_fake s)) ready.1,
  )

  begin-IsOpen :
      (s : Server FakeHandle S N L)
      → IsReady net s
      → IsOpen net (begin net rng on_fake s).1.reconciler
  unfolding begin
  begin-IsOpen s ready =
      let synced = sync_http_services net rng on_fake (services_of s) (s.http_mgr, s.listeners) in
      let s1 = record s { http_mgr = synced.1.0; listeners = synced.1.1 } in
      let admin =
        if s.config_mgr.current.global.admin_address == ""
        then (none, s1)
        else init_admin_server net rng on_fake s1 in
      let s2 = admin.1 in
      let s3 = record s2 { config_mgr = record s2.config_mgr { on_reload = true } } in
      let ready2 : IsReady net s2 =
        if_intro (λ (x : Option Error × Server FakeHandle S N L). IsReady net x.1)
          (s.config_mgr.current.global.admin_address == "") (none, s1)
          (init_admin_server net rng on_fake s1) ready (unfold init_admin_server in ready) in
      elim (Option-cases synced.0) [
        | inr (e, f) ↦ rw (f, begin) ready.0
        | inl f ↦ elim (Option-cases admin.0) [
          | inr (e, g) ↦ rw (f, begin, g) ready2.0
          | inl g ↦ rw (f, begin, g) (sync-IsOpen s3 ready2)
        ]
      ]

  -- Over the in-memory handle, well-formed and open before the start, with listen hosts in
  -- canonical form in the configuration and in each one that a reload accepts: the handle is well-
  -- formed and open, and the listen hosts are in canonical form, after the start and any run of
  -- reloads, changes of the configuration, probes and ticks, whether the passes succeed or not.
  pub begin-run-IsReady :
      (events : List Event) (s : Server FakeHandle S N L)
      → ReloadsCanonical net events
      → IsReady net s
      → IsReady net (
          run net rng
            (over_fake net rng outside)
            events
            (begin net rng (over_fake net rng outside) s).1)
  begin-run-IsReady events s c ready = run_from-IsReady events (begin net rng on_fake s).1 c (
    begin-IsOpen s ready,
    subst (HasCanonicalHosts net) (sym (current-begin net rng on_fake s)) ready.1,
  )

  -- The server after its start and a run of events.
  abbrev pub after_run : List Event → Server FakeHandle S N L → Server FakeHandle S N L
  after_run events s =
      run net rng (over_fake net rng outside) events (begin net rng (over_fake net rng outside) s).1

  -- Over the in-memory handle, well-formed and open before the start, with listen hosts in
  -- canonical form in the configuration and in each one that a reload accepts: after the start and
  -- any run of reloads, changes of the configuration, probes and ticks, and if the desired state
  -- is built without error, a probe that changes the verdict on a backend leaves under each key
  -- that the current configuration uses the last of its services with that key, with its
  -- scheduler, and with just the destinations of its backends that are used, at their weights:
  -- those that the health after the probe has up, or all if the service is not checked, and of two
  -- with one address and port the last.
  pub run-on_probe-Serves :
      (events : List Event) (s : Server FakeHandle S N L) (address : String) (failed : Bool)
      (config : ServiceCheckConfig) (desired : Desired)
      → ReloadsCanonical net events
      → IsReady net s
      → (handle_check_result address failed config (after_run events s).health_mgr).1 ≡ true
      → build_desired_state net
          (is_healthy (handle_check_result address failed config (after_run events s).health_mgr).0)
          (services_of (after_run events s))
          []
        ≡ ok desired
      → (k : ServiceKey) (cfg : ServiceConfig)
      → last_keyed net k (services_of (after_run events s)) ≡ some cfg
      → Serves net
          (is_healthy (handle_check_result address failed config (after_run events s).health_mgr).0)
          (on_probe net rng
            (over_fake net rng outside)
            address
            failed
            config
            (after_run events s)).reconciler.manager
          k
          cfg
  run-on_probe-Serves events s address failed config desired c ready changed built k cfg last =
      let u = begin-run-IsReady events s c ready in
      on_probe-Serves net rng outside (after_run events s) u.0.0 u.0.1 u.1 address failed config
        desired changed built k cfg last
