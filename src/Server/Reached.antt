-- ===== src/Server/Reached.antt =====
-- What pkg/server/server.go leaves in the in-memory handle after a change of the health of a backend or of the
-- configuration.
use fast_vip.Prelude.{
  String, Bool, true, false, [], some, ◌≡◌, arith, MapRange, All, lookup, ok, sym, subst, ◌∙◌, inl,
  inr, Option-cases,
}
use fast_vip.Net.{Net}
use fast_vip.Config.Manager.{on_change}
use fast_vip.Health.{ServiceCheckConfig, is_healthy, handle_check_result, update_targets}
use fast_vip.Lvs.Keys.{ServiceKey, service_key_eq}
use fast_vip.Lvs.Desired.{DesiredService, build_desired_state}
use fast_vip.Lvs.Desired.Keyed.{HasCanonicalHost}
use fast_vip.Lvs.Fake.{FakeHandle, fake_handle}
use fast_vip.Lvs.Fake.WellFormed.{IsWellFormed}
use fast_vip.Lvs.Reconciler.{Reconciler, reconcile}
use fast_vip.Lvs.Reconciler.Loops.{Desired}
use fast_vip.Lvs.Reconciler.Converge.{IsServed, reconcile-IsServed}
use fast_vip.Lvs.Reconciler.Serves.{Serves, served-Serves}
use fast_vip.Lvs.Desired.Asked.{last_keyed}
use fast_vip.Config.{ServiceConfig}
use fast_vip.Server.{
  Platform, Server, services_of, run_reconcile, update_health_metrics, trigger_reconcile,
  on_health_change, apply_config, sync_traffic_collector,
}
use fast_vip.Server.Events.{on_probe, on_config_change}

-- The program over the in-memory handle.
abbrev pub over_fake :
    {S N L : Type 0} → Net → MapRange → Platform FakeHandle S N L → Platform FakeHandle S N L
over_fake net rng outside = record outside { ipvs = fake_handle net rng }

module _ {H S N L : Type 0} (net : Net) (rng : MapRange) (outside : Platform H S N L) where
  pub reconciler-sync_traffic_collector :
      (s : Server H S N L) → (sync_traffic_collector net rng outside s).reconciler ≡ s.reconciler
  unfolding sync_traffic_collector
  reconciler-sync_traffic_collector s = elim (Option-cases s.collector) [
    | inl e ↦ ground (arith, e)
    | inr (l, e) ↦ ground (arith, e)
  ]

  pub reconciler-apply_config :
      (s : Server H S N L)
      → (apply_config net rng outside s).reconciler
        ≡ (reconcile net rng outside.ipvs outside.rules
            (is_healthy (update_targets net rng (services_of s) s.health_mgr))
            (services_of s)
            s.reconciler).1
  unfolding apply_config update_health_metrics run_reconcile
  reconciler-apply_config s =
      let targeted = record s {
        health_mgr = update_targets net rng (services_of s) s.health_mgr;
      } in
      elim (Option-cases (run_reconcile net rng outside targeted).0) [
        | inl e ↦ ground (arith, e)
        | inr (x, e) ↦ ground (arith, e)
      ]

module _ {H S N L : Type 0} (net : Net) (rng : MapRange) (outside : Platform H S N L) where
  -- The targets of the health checks after a configuration is applied.
  pub health-sync-apply :
      (s : Server H S N L)
      → (sync_traffic_collector net rng outside (apply_config net rng outside s)).health_mgr
        ≡ update_targets net rng (services_of s) s.health_mgr
  unfolding sync_traffic_collector apply_config update_health_metrics run_reconcile
  health-sync-apply s =
      let targeted = record s {
        health_mgr = update_targets net rng (services_of s) s.health_mgr;
      } in
      elim (Option-cases (run_reconcile net rng outside targeted).0) [
        | inl e ↦ elim (Option-cases (apply_config net rng outside s).collector) [
          | inl f ↦ ground (arith, e, f)
          | inr (l, f) ↦ ground (arith, e, f)
        ]
        | inr (x, e) ↦ elim (Option-cases (apply_config net rng outside s).collector) [
          | inl f ↦ ground (arith, e, f)
          | inr (l, f) ↦ ground (arith, e, f)
        ]
      ]

module _ {S N L : Type 0} (net : Net) (rng : MapRange) (outside : Platform FakeHandle S N L)
    (s : Server FakeHandle S N L) (w : IsWellFormed net s.reconciler.manager)
    (open_ : s.reconciler.manager.closed ≡ false)
    (hosts : All (HasCanonicalHost net) (services_of s)) where
  on_probe-IsServed :
      (address : String) (failed : Bool) (config : ServiceCheckConfig) (desired : Desired)
      → (handle_check_result address failed config s.health_mgr).1 ≡ true
      → build_desired_state net
          (is_healthy (handle_check_result address failed config s.health_mgr).0)
          (services_of s)
          []
        ≡ ok desired
      → (k : ServiceKey) (d : DesiredService) → lookup k desired ≡ some d
      → IsServed net
          (on_probe net rng (over_fake net rng outside) address failed config s).reconciler.manager
          k
          d
  unfolding on_probe on_health_change trigger_reconcile update_health_metrics run_reconcile
  on_probe-IsServed address failed config desired changed built k d found =
      rw (changed, on_probe)
        (reconcile-IsServed net rng outside.rules
          (is_healthy (handle_check_result address failed config s.health_mgr).0) (services_of s)
          s.reconciler desired w open_ built hosts k d found)

  on_config_change-IsServed :
      (desired : Desired)
      → s.config_mgr.signalled ≡ true
      → build_desired_state net
          (is_healthy (update_targets net rng (services_of s) s.health_mgr))
          (services_of s)
          []
        ≡ ok desired
      → (k : ServiceKey) (d : DesiredService) → lookup k desired ≡ some d
      → IsServed net (on_config_change net rng (over_fake net rng outside) s).reconciler.manager k d
  unfolding on_config_change
  on_config_change-IsServed desired signalled built k d found =
      let taken = record s { config_mgr = on_change net s.config_mgr } in
      let after =
        reconciler-sync_traffic_collector net rng (over_fake net rng outside)
          (apply_config net rng (over_fake net rng outside) taken)
        ∙ reconciler-apply_config net rng (over_fake net rng outside) taken in
      rw (signalled, on_config_change)
        (subst (λ r. IsServed net (Reconciler.manager r) k d) (sym after)
          (reconcile-IsServed net rng outside.rules
            (is_healthy (update_targets net rng (services_of s) s.health_mgr)) (services_of s)
            s.reconciler desired w open_ built hosts k d found))

  -- After a probe that changes the verdict on a backend, the last service under each key is served
  -- as the new health asks.
  pub on_probe-Serves :
      (address : String) (failed : Bool) (config : ServiceCheckConfig) (desired : Desired)
      → (handle_check_result address failed config s.health_mgr).1 ≡ true
      → build_desired_state net
          (is_healthy (handle_check_result address failed config s.health_mgr).0)
          (services_of s)
          []
        ≡ ok desired
      → (k : ServiceKey) (cfg : ServiceConfig) → last_keyed net k (services_of s) ≡ some cfg
      → Serves net
          (is_healthy (handle_check_result address failed config s.health_mgr).0)
          (on_probe net rng (over_fake net rng outside) address failed config s).reconciler.manager
          k
          cfg
  on_probe-Serves address failed config desired changed built k cfg last =
      served-Serves net (is_healthy (handle_check_result address failed config s.health_mgr).0)
        (services_of s) desired _ k cfg built last
        (on_probe-IsServed address failed config desired changed built k)

  -- Over the in-memory handle in a well-formed open state, with listen hosts in canonical form and
  -- a desired state that is built without error: once the main loop has taken the signal of a
  -- changed configuration, there stands under each key that it uses the last of its services with
  -- that key, with its scheduler, and with just the destinations of its backends that are used, at
  -- their weights: those that the health of the targets then has up, or all if the service is not
  -- checked, and of two with one address and port the last.
  pub on_config_change-Serves :
      (desired : Desired)
      → s.config_mgr.signalled ≡ true
      → build_desired_state net
          (is_healthy (update_targets net rng (services_of s) s.health_mgr))
          (services_of s)
          []
        ≡ ok desired
      → (k : ServiceKey) (cfg : ServiceConfig) → last_keyed net k (services_of s) ≡ some cfg
      → Serves net
          (is_healthy (update_targets net rng (services_of s) s.health_mgr))
          (on_config_change net rng (over_fake net rng outside) s).reconciler.manager
          k
          cfg
  on_config_change-Serves desired signalled built k cfg last =
      served-Serves net (is_healthy (update_targets net rng (services_of s) s.health_mgr))
        (services_of s) desired _ k cfg built last
        (on_config_change-IsServed desired signalled built k)
