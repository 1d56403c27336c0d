-- ===== src/Server/Valid.antt =====
-- The configuration of a server as it starts and runs, pkg/server/server.go.
use fast_vip.Prelude.{
  Option, none, Error, String, Bool, true, List, [], ◌∷◌, ◌≡◌, refl, arith, MapRange, ok, ap, sym,
  subst, ◌∙◌, if◌then◌else◌, ◌==◌, string_eq, if_intro, inl, inr, Option-cases, Result-cases,
}
use fast_vip.Net.{Net}
use fast_vip.Config.Validate.Valid.{IsValidConfig}
use fast_vip.Config.Manager.{
  Viper, ConfigManager, new_manager, reload, on_change, reload_all, current-IsValid, reload-IsValid,
}
use fast_vip.Health.{ServiceCheckConfig, update_targets}
use fast_vip.Server.{
  Platform, Server, new_server, services_of, run_reconcile, update_health_metrics,
  trigger_reconcile, on_health_change, apply_config, sync_traffic_collector, sync_http_services,
  init_admin_server, begin,
}
use fast_vip.Server.Events.{
  Event, reloads, config_changes, probes, ticks, on_reload, on_probe, on_config_change, on_tick,
  step, run,
}

abbrev pub HasValidConfig : {H S N L : Type 0} → Net → Server H S N L → Type 0
HasValidConfig net s = IsValidConfig net s.config_mgr.current

module _ {H S N L : Type 0} (net : Net) (rng : MapRange) (outside : Platform H S N L) where
  config-sync_traffic_collector :
      (s : Server H S N L) → (sync_traffic_collector net rng outside s).config_mgr ≡ s.config_mgr
  unfolding sync_traffic_collector
  config-sync_traffic_collector s = elim (Option-cases s.collector) [
    | inl e ↦ ground (arith, e)
    | inr (l, e) ↦ ground (arith, e)
  ]

  pub config-apply_config :
      (s : Server H S N L) → (apply_config net rng outside s).config_mgr ≡ s.config_mgr
  unfolding apply_config update_health_metrics run_reconcile
  config-apply_config s =
      let targeted = record s {
        health_mgr = update_targets net rng (services_of s) s.health_mgr;
      } in
      elim (Option-cases (run_reconcile net rng outside targeted).0) [
        | inl e ↦ ground (arith, e)
        | inr (x, e) ↦ ground (arith, e)
      ]

  -- The server with the callback of the reloads, before the first pass.
  pub current-init_admin_server :
      (s : Server H S N L) → (init_admin_server net rng outside s).1.config_mgr ≡ s.config_mgr
  unfolding init_admin_server
  current-init_admin_server s = refl

  pub current-begin :
      (s : Server H S N L) → (begin net rng outside s).1.config_mgr.current ≡ s.config_mgr.current
  unfolding begin
  current-begin s =
      let synced = sync_http_services net rng outside (services_of s) (s.http_mgr, s.listeners) in
      let s1 = record s { http_mgr = synced.1.0; listeners = synced.1.1 } in
      let admin =
        if s.config_mgr.current.global.admin_address == ""
        then (none, s1)
        else init_admin_server net rng outside s1 in
      let s2 = admin.1 in
      let s3 = record s2 { config_mgr = record s2.config_mgr { on_reload = true } } in
      let same : s2.config_mgr.current ≡ s.config_mgr.current =
        if_intro
          (λ (x : Option Error × Server H S N L). x.1.config_mgr.current ≡ s.config_mgr.current)
          (s.config_mgr.current.global.admin_address == "") (none, s1)
          (init_admin_server net rng outside s1) refl
          (ap ConfigManager.current (current-init_admin_server s1)) in
      elim (Option-cases synced.0) [
        | inr (e, f) ↦ rw (f, begin) refl
        | inl f ↦ elim (Option-cases admin.0) [
          | inr (e, g) ↦ rw (f, begin, g) same
          | inl g ↦
              rw (f, begin, g)
                (ap ConfigManager.current (
                    config-sync_traffic_collector (apply_config net rng outside s3)
                    ∙ config-apply_config s3)
                  ∙ same)
        ]
      ]

  pub config-on_reload :
      (v : Viper) (s : Server H S N L)
      → (on_reload net rng outside v s).config_mgr ≡ (reload net v s.config_mgr).1
  unfolding on_reload
  config-on_reload v s = elim (Option-cases (reload net v s.config_mgr).0) [
    | inl e ↦ ground (arith, e)
    | inr (x, e) ↦ ground (arith, e)
  ]

  pub current-on_config_change :
      (s : Server H S N L)
      → (on_config_change net rng outside s).config_mgr.current ≡ s.config_mgr.current
  unfolding on_config_change
  current-on_config_change s =
      let taken = record s { config_mgr = on_change net s.config_mgr } in
      if_intro (λ (x : Server H S N L). x.config_mgr.current ≡ s.config_mgr.current)
        s.config_mgr.signalled
        (sync_traffic_collector net rng outside (apply_config net rng outside taken)) s
        (ap ConfigManager.current (
          config-sync_traffic_collector (apply_config net rng outside taken)
          ∙ config-apply_config taken))
        refl

  pub config-on_probe :
      (address : String) (failed : Bool) (config : ServiceCheckConfig) (s : Server H S N L)
      → (on_probe net rng outside address failed config s).config_mgr ≡ s.config_mgr
  unfolding on_probe on_health_change trigger_reconcile update_health_metrics run_reconcile
  config-on_probe address failed config s = ground arith

  pub config-on_tick : (s : Server H S N L) → (on_tick net rng outside s).config_mgr ≡ s.config_mgr
  unfolding on_tick
  config-on_tick s = elim (Option-cases s.collector) [
    | inl e ↦ ground (arith, e)
    | inr (l, e) ↦ ground (arith, e)
  ]

  step-HasValidConfig :
      (event : Event) (s : Server H S N L)
      → HasValidConfig net s
      → HasValidConfig net (step net rng outside event s)
  unfolding step
  step-HasValidConfig (reloads v) s h =
      subst (λ c. IsValidConfig net (ConfigManager.current c)) (sym (config-on_reload v s))
        (reload-IsValid net v s.config_mgr h)
  step-HasValidConfig config_changes s h =
      subst (IsValidConfig net) (sym (current-on_config_change s)) h
  step-HasValidConfig (probes address failed config) s h =
      subst (λ c. IsValidConfig net (ConfigManager.current c))
        (sym (config-on_probe address failed config s)) h
  step-HasValidConfig ticks s h =
      subst (λ c. IsValidConfig net (ConfigManager.current c)) (sym (config-on_tick s)) h

  run-HasValidConfig :
      (events : List Event) (s : Server H S N L)
      → HasValidConfig net s
      → HasValidConfig net (run net rng outside events s)
  unfolding run
  run-HasValidConfig [] s h = h
  run-HasValidConfig (event ∷ rest) s h =
      run-HasValidConfig rest (step net rng outside event s) (step-HasValidConfig event s h)

  -- If the first load succeeds, the configuration of the server is valid after its start and after
  -- any run of reloads, of which some may fail, changes taken by the main loop, probes and ticks.
  pub begin-run-HasValidConfig :
      (v : Viper) (h : H) (m : S) (l : L) (s : Server H S N L) (events : List Event)
      → new_server net rng outside v h m l ≡ ok s
      → HasValidConfig net (run net rng outside events (begin net rng outside s).1)
  unfolding new_server reload_all
  begin-run-HasValidConfig v h m l s events made = elim (Result-cases (new_manager net v)) [
    | inr (x, e) ↦ absurd (ground (arith, e, made))
    | inl (cfg, e) ↦
        let same : cfg ≡ s.config_mgr = ground (arith, e, made) in
        run-HasValidConfig events (begin net rng outside s).1 (
          subst (IsValidConfig net) (sym (current-begin s)) (
            subst (λ c. IsValidConfig net (ConfigManager.current c)) same
              (current-IsValid net v cfg [] e)))
  ]
