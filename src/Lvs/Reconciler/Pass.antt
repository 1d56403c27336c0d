-- ===== src/Lvs/Reconciler/Pass.antt =====
-- A pass of Reconcile, pkg/lvs/reconciler.go, as its two loops and then the rules.
use fast_vip.Prelude.{
  String, Bool, false, List, [], map, Option, ◌≡◌, refl, sym, ◌∙◌, string_eq, int_eq, IsUnique,
  MapRange, Every, Every-empty, ok, All, arith,
}
use fast_vip.Net.{Net}
use fast_vip.Config.{ServiceConfig}
use fast_vip.Snat.{SnatManager}
use fast_vip.Lvs.{Service}
use fast_vip.Lvs.Keys.{ServiceKey, destination_key_eq, service_key_eq, ServiceKeyedBy}
use fast_vip.Lvs.Fake.{FakeHandle, fake_handle, get_services, clone_service}
use fast_vip.Lvs.Fake.WellFormed.{IsWellFormed}
use fast_vip.Lvs.Manager
use fast_vip.Lvs.Desired.{DesiredService, build_desired_state}
use fast_vip.Lvs.Desired.Keyed.{
  HasCanonicalHost, build_desired_state-IsUnique, build_desired_state-Every,
}
use fast_vip.Lvs.Reconciler.{
  Reconciler, ReconcileError, sync_services, drop_services, then_snat, conclude, reconcile,
}
use fast_vip.Lvs.Reconciler.Loops.{Desired, Canonical, sync_services-fake}
use fast_vip.Lvs.Reconciler.Drops.{drop_services-fake}
use fast_vip.Lvs.Reconciler.Lookups.{actual_map-Every, services-sync_handles}
use fast_vip.Lvs.Reconciler.After.{
  present, after_loops, u_order, u_present, lookup-present, order_desired, order_present,
}

read_services :
    (net : Net) (rng : MapRange) (h : FakeHandle)
    → Manager.get_services (fake_handle net rng) h
      ≡ ok (map (λ e. clone_service e.1) (rng.order ServiceKey Service h.services))
unfolding Manager.get_services get_services
read_services net rng h = refl

module _ {S : Type 0} (net : Net) (rng : MapRange) where
  module _ (desired : Desired) (r : Reconciler FakeHandle S) (w : IsWellFormed net r.manager)
      (open_ : r.manager.closed ≡ false) (u : IsUnique desired)
      (ca : Every (Canonical net) desired) where
    abbrev order : Desired
    order = rng.order ServiceKey DesiredService desired

    order-Every : Every (Canonical net) order
    order-Every k d found = ca k d (sym (order_desired net rng desired r w u k) ∙ found)

    present-Every :
        Every (ServiceKeyedBy net) (rng.order ServiceKey Service (present net rng desired r))
    present-Every k s found =
        actual_map-Every net r.managed desired
          (map (λ e. clone_service e.1) (rng.order ServiceKey Service r.manager.services)) []
          (Every-empty (ServiceKeyedBy net)) k s
          (sym (order_present net rng desired r w u k) ∙ found)

    loops-fake :
        drop_services net rng
          (fake_handle net rng)
          desired
          (rng.order ServiceKey Service (present net rng desired r))
          (sync_services net rng (fake_handle net rng) (present net rng desired r) order ([], r))
        ≡ ([], after_loops net rng desired r)
    unfolding after_loops
    loops-fake =
        rw
          (sync_services-fake net rng (present net rng desired r) order [] r
            (u_order net rng desired r w u) order-Every
            (λ j p. ground (
              arith,
              order_desired net rng desired r w u j,
              lookup-present net rng desired r w u j,
            ))
            w open_)
          (drop_services-fake net rng desired
            (rng.order ServiceKey Service (present net rng desired r)) [] _
            (rng.order-IsUnique ServiceKey Service (present net rng desired r)
              (u_present net rng desired r w u))
            present-Every
            (λ j p. ground (
              arith,
              order_present net rng desired r w u j,
              lookup-present net rng desired r w u j,
              services-sync_handles net rng order r.manager j (u_order net rng desired r w u),
            )))

  module _ (mgr : SnatManager S) (is_healthy : String → Bool) (cfgs : List ServiceConfig)
      (r : Reconciler FakeHandle S) (desired : Desired) (w : IsWellFormed net r.manager)
      (open_ : r.manager.closed ≡ false)
      (built : build_desired_state net is_healthy cfgs [] ≡ ok desired)
      (hosts : All (HasCanonicalHost net) cfgs) where
    abbrev pub u_desired : IsUnique desired
    u_desired = build_desired_state-IsUnique net is_healthy cfgs [] desired built tt

    abbrev pub ca_desired : Every (Canonical net) desired
    ca_desired =
        build_desired_state-Every net is_healthy cfgs [] desired hosts built
          (Every-empty (Canonical net))

    abbrev pub pass : Option ReconcileError × Reconciler FakeHandle S
    pass = reconcile net rng (fake_handle net rng) mgr is_healthy cfgs r

    pub reconcile-fake :
        pass
        ≡ conclude net rng (fake_handle net rng) (
            then_snat net rng
              (fake_handle net rng)
              mgr
              is_healthy
              cfgs
              ([], after_loops net rng desired r))
    unfolding reconcile
    reconcile-fake =
        rw (built, read_services net rng r.manager, reconcile)
          (rw (loops-fake desired r w open_ u_desired ca_desired))
