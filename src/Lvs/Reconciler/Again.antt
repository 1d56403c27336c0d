-- ===== src/Lvs/Reconciler/Again.antt =====
-- Two passes of Reconcile, pkg/lvs/reconciler.go, over the in-memory handle.
use fast_vip.Prelude.{
  String, Bool, false, ◌||◌, List, [], ◌∷◌, Option, none, some, ◌≡◌, refl, ap, sym, ◌∙◌,
  if◌then◌else◌, ==_iff, string_eq, int_eq, Dict, lookup, is_some, IsUnique, MapRange, ok, All,
  Option-cases, inl, inr, arith,
}
use fast_vip.Net.{Net}
use fast_vip.Config.{ServiceConfig}
use fast_vip.Snat.{SnatManager}
use fast_vip.Lvs.{Service, Destination}
use fast_vip.Lvs.Keys.{ServiceKey, DestinationKey, destination_key_eq, service_key_eq}
use fast_vip.Lvs.Fake.{FakeHandle, fake_handle}
use fast_vip.Lvs.Fake.WellFormed.{IsWellFormed}
use fast_vip.Lvs.Desired.{DesiredService, build_desired_state}
use fast_vip.Lvs.Desired.Keyed.{HasCanonicalHost}
use fast_vip.Lvs.Destinations.{destination_map}
use fast_vip.Lvs.Destinations.Converge.{
  settle, settled, lookup-settle, settle-IsUnique, settle-Every,
}
use fast_vip.Lvs.Reconciler.{Reconciler, is_managed, reconcile}
use fast_vip.Lvs.Reconciler.Services.{dests_or_empty, kept_service, old-IsDestMap}
use fast_vip.Lvs.Reconciler.Loops.{Desired}
use fast_vip.Lvs.Reconciler.After.{
  after_loops, services-after_loops, destinations-after_loops, managed-after_loops,
}
use fast_vip.Lvs.Reconciler.Pass.{u_desired, ca_desired}
use fast_vip.Lvs.Reconciler.Services.{sync_handle}
use fast_vip.Lvs.Reconciler.Loops.{drop_handle, drop_handles, sync_handles}
use fast_vip.Lvs.Reconciler.Drops.{sync_handles-IsWellFormed, drop_handles-IsWellFormed}
use fast_vip.Lvs.Reconciler.After.{present, u_order, order_desired}
use fast_vip.Lvs.Reconciler.Converge.{final-manager, final-managed}

closed-drop_handles :
    (desired : Desired) (es : Dict ServiceKey Service) (h : FakeHandle)
    → (drop_handles desired es h).closed ≡ h.closed
unfolding drop_handles drop_handle
closed-drop_handles desired [] h = refl
closed-drop_handles desired ((k, s) ∷ es) h =
    ground (arith, closed-drop_handles desired es (drop_handle desired k h))

closed-sync_handles :
    (net : Net) (rng : MapRange) (es : Desired) (h : FakeHandle)
    → (sync_handles net rng es h).closed ≡ h.closed
unfolding sync_handles sync_handle
closed-sync_handles net rng [] h = refl
closed-sync_handles net rng ((k, d) ∷ es) h =
    closed-sync_handles net rng es (sync_handle net rng k d h)

kept-kept :
    (old : Option Service) (s : Service)
    → kept_service (some (kept_service old s)) s ≡ kept_service old s
kept-kept none s = ground (arith, ==_iff s.sched_name s.sched_name)
kept-kept (some old) s =
    ground (arith, ==_iff s.sched_name s.sched_name, ==_iff old.sched_name s.sched_name)

settled-settled :
    (want old : Option Destination) → settled want (settled want old) ≡ settled want old
settled-settled none old = refl
settled-settled (some d) none = ground (arith, ==_iff d.weight d.weight)
settled-settled (some d) (some old) =
    ground (arith, ==_iff d.weight d.weight, ==_iff old.weight d.weight)

module _ {S : Type 0} (net : Net) (rng : MapRange) where
  module _ (mgr : SnatManager S) (is_healthy : String → Bool) (cfgs : List ServiceConfig)
      (r : Reconciler FakeHandle S) (desired : Desired) (w : IsWellFormed net r.manager)
      (open_ : r.manager.closed ≡ false)
      (built : build_desired_state net is_healthy cfgs [] ≡ ok desired)
      (hosts : All (HasCanonicalHost net) cfgs) where
    abbrev pub once : Reconciler FakeHandle S
    once = (reconcile net rng (fake_handle net rng) mgr is_healthy cfgs r).1

    abbrev twice : Reconciler FakeHandle S
    twice = (reconcile net rng (fake_handle net rng) mgr is_healthy cfgs once).1

    abbrev ud : IsUnique desired
    ud = u_desired net rng mgr is_healthy cfgs r desired w open_ built hosts

    pub reconcile-IsWellFormed : IsWellFormed net once.manager
    unfolding after_loops
    reconcile-IsWellFormed =
        let order = rng.order ServiceKey DesiredService desired in
        rw (final-manager net rng mgr is_healthy cfgs r desired w open_ built hosts) (
          drop_handles-IsWellFormed net rng desired _ _ (
            sync_handles-IsWellFormed net rng order r.manager (u_order net rng desired r w ud)
              (λ k d found.
                ca_desired net rng mgr is_healthy cfgs r desired w open_ built hosts k d
                  (sym (order_desired net rng desired r w ud k) ∙ found))
              w))

    pub closed-reconcile : once.manager.closed ≡ false
    unfolding after_loops
    closed-reconcile =
        ap (λ (h : FakeHandle). h.closed)
          (final-manager net rng mgr is_healthy cfgs r desired w open_ built hosts)
        ∙ closed-drop_handles desired (rng.order ServiceKey Service (present net rng desired r))
            (sync_handles net rng (rng.order ServiceKey DesiredService desired) r.manager)
        ∙ closed-sync_handles net rng (rng.order ServiceKey DesiredService desired) r.manager
        ∙ open_

    services-pass :
        (k : ServiceKey)
        → lookup k once.manager.services ≡ elim (lookup k desired) [
          | some d ↦ some (kept_service (lookup k r.manager.services) d.service)
          | none ↦ if is_managed k r.managed then none else lookup k r.manager.services
        ]
    services-pass k =
        rw (final-manager net rng mgr is_healthy cfgs r desired w open_ built hosts)
          (services-after_loops net rng desired r w ud k)

    destinations-pass :
        (k : ServiceKey)
        → lookup k once.manager.destinations ≡ elim (lookup k desired) [
          | some d ↦
              some
                (settle net rng d.destinations (dests_or_empty (lookup k r.manager.destinations)))
          | none ↦ if is_managed k r.managed then none else lookup k r.manager.destinations
        ]
    destinations-pass k =
        rw (final-manager net rng mgr is_healthy cfgs r desired w open_ built hosts)
          (destinations-after_loops net rng desired r w ud k)

    managed-pass :
        (k : ServiceKey)
        → is_managed k once.managed ≡ (
            is_some (lookup k desired)
            || (if is_some (lookup k r.manager.services) then false else is_managed k r.managed))
    managed-pass k =
        rw (final-managed net rng mgr is_healthy cfgs r desired w open_ built hosts)
          (managed-after_loops net rng desired r w ud k)

  module _ (mgr : SnatManager S) (is_healthy : String → Bool) (cfgs : List ServiceConfig)
      (r : Reconciler FakeHandle S) (desired : Desired) (w : IsWellFormed net r.manager)
      (open_ : r.manager.closed ≡ false)
      (built : build_desired_state net is_healthy cfgs [] ≡ ok desired)
      (hosts : All (HasCanonicalHost net) cfgs) where
    abbrev first : Reconciler FakeHandle S
    first = once mgr is_healthy cfgs r desired w open_ built hosts

    abbrev second : Reconciler FakeHandle S
    second = (reconcile net rng (fake_handle net rng) mgr is_healthy cfgs first).1

    abbrev w1 : IsWellFormed net first.manager
    w1 = reconcile-IsWellFormed mgr is_healthy cfgs r desired w open_ built hosts

    abbrev open1 : first.manager.closed ≡ false
    open1 = closed-reconcile mgr is_healthy cfgs r desired w open_ built hosts

    -- Over the in-memory handle in a well-formed open state, for any order of the maps, with a
    -- desired state that was built without error and listen hosts in canonical form: a second pass
    -- with the same configuration and health leaves under each key the service and the
    -- destinations that the first pass left.
    pub reconcile_twice :
        (k : ServiceKey)
        → let h1 = (reconcile net rng (fake_handle net rng) mgr is_healthy cfgs r).1 in
          let h2 = (reconcile net rng (fake_handle net rng) mgr is_healthy cfgs h1).1 in
          (lookup k h2.manager.services ≡ lookup k h1.manager.services)
          × ((j : DestinationKey)
              → lookup j (dests_or_empty (lookup k h2.manager.destinations))
                ≡ lookup j (dests_or_empty (lookup k h1.manager.destinations)))
    reconcile_twice k = (
      ground (
        arith,
        services-pass mgr is_healthy cfgs first desired w1 open1 built hosts k,
        services-pass mgr is_healthy cfgs r desired w open_ built hosts k,
        managed-pass mgr is_healthy cfgs r desired w open_ built hosts k,
        λ (d : DesiredService). kept-kept (lookup k r.manager.services) d.service,
      ),
      λ j. elim (Option-cases (lookup k desired)) [
        | inl e ↦ ground (
          arith,
          destinations-pass mgr is_healthy cfgs first desired w1 open1 built hosts k,
          destinations-pass mgr is_healthy cfgs r desired w open_ built hosts k,
          managed-pass mgr is_healthy cfgs r desired w open_ built hosts k,
          w.paired k,
        )
        | inr (d, e) ↦
            let m = dests_or_empty (lookup k r.manager.destinations) in
            let dm = old-IsDestMap net rng k r.manager w in
            let want = lookup j (destination_map net d.destinations []) in
            ground (
              arith,
              destinations-pass mgr is_healthy cfgs first desired w1 open1 built hosts k,
              destinations-pass mgr is_healthy cfgs r desired w open_ built hosts k,
              lookup-settle net rng d.destinations m dm.0 dm.1 j,
              lookup-settle net rng d.destinations (settle net rng d.destinations m)
                  (settle-IsUnique net rng d.destinations m dm.0)
                  (settle-Every net rng d.destinations m dm.0 dm.1) j,
              settled-settled want (lookup j m),
            )
      ],
    )
