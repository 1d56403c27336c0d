-- ===== src/Lvs/Reconciler/Converge.antt =====
-- A pass of Reconcile, pkg/lvs/reconciler.go, over the in-memory handle.
use fast_vip.Prelude.{
  String, Bool, true, false, ◌||◌, List, [], Option, none, some, ◌≡◌, refl, ap, ◌∙◌, if◌then◌else◌,
  ==_iff, string_eq, int_eq, lookup, is_some, MapRange, ok, All, arith,
}
use fast_vip.Net.{Net}
use fast_vip.Config.{ServiceConfig}
use fast_vip.Snat.{SnatManager}
use fast_vip.Lvs.{Service, Destination}
use fast_vip.Lvs.Keys.{ServiceKey, DestinationKey, destination_key_eq, service_key_eq}
use fast_vip.Lvs.Fake.{FakeHandle, fake_handle}
use fast_vip.Lvs.Fake.WellFormed.{IsWellFormed}
use fast_vip.Lvs.Desired.{DesiredService, build_desired_state}
use fast_vip.Lvs.Desired.Keyed.{HasCanonicalHost}
use fast_vip.Lvs.Desired.Asked.{weight_of}
use fast_vip.Lvs.Destinations.{destination_map}
use fast_vip.Lvs.Destinations.Converge.{settled, lookup-settle}
use fast_vip.Lvs.Reconciler.{
  Reconciler, ReconcileError, is_managed, then_snat, conclude, reconcile, reconcile_snat,
}
use fast_vip.Lvs.Reconciler.Services.{dests_or_empty, kept_service, old-IsDestMap}
use fast_vip.Lvs.Reconciler.Loops.{Desired}
use fast_vip.Lvs.Reconciler.After.{
  after_loops, services-after_loops, destinations-after_loops, managed-after_loops,
}
use fast_vip.Lvs.Reconciler.Pass.{u_desired, pass, reconcile-fake}

-- The scheduler of a service that may be there.
abbrev pub sched_of : Option Service → Option String
sched_of none = none
sched_of (some s) = some s.sched_name

-- The handle has the service under its key with the wanted scheduler, and with the wanted
-- destinations and no other, each with the wanted weight.
pub record IsServed (net : Net) (h : FakeHandle) (k : ServiceKey) (d : DesiredService)
    : Type 0 where
  pub scheduler : sched_of (lookup k h.services) ≡ some d.service.sched_name
  pub has_destinations : is_some (lookup k h.destinations) ≡ true
  pub weights :
      (j : DestinationKey)
      → weight_of (lookup j (dests_or_empty (lookup k h.destinations)))
        ≡ weight_of (lookup j (destination_map net d.destinations []))

weight-settled : (want old : Option Destination) → weight_of (settled want old) ≡ weight_of want
weight-settled none old = refl
weight-settled (some d) none = refl
weight-settled (some d) (some old) = ground (arith, ==_iff old.weight d.weight)

sched-kept_service :
    (old : Option Service) (s : Service) → (kept_service old s).sched_name ≡ s.sched_name
sched-kept_service none s = refl
sched-kept_service (some old) s = ground (arith, ==_iff old.sched_name s.sched_name)

module _ {S : Type 0} (net : Net) (rng : MapRange) where
  -- The rules and the counting of errors leave the services and the managed set alone.
  conclude-manager :
      (mgr : SnatManager S) (is_healthy : String → Bool) (cfgs : List ServiceConfig)
      (r : Reconciler FakeHandle S)
      → let s =
          conclude net rng
            (fake_handle net rng)
            (then_snat net rng (fake_handle net rng) mgr is_healthy cfgs ([], r)) in
        (s.1.manager ≡ r.manager)
        × (s.1.managed ≡ r.managed)
        × ((reconcile_snat net rng (fake_handle net rng) mgr is_healthy cfgs r.snat_mgr).0 ≡ none
            → s.0 ≡ none)
  unfolding then_snat
  conclude-manager mgr is_healthy cfgs r = ground arith

  module _ (mgr : SnatManager S) (is_healthy : String → Bool) (cfgs : List ServiceConfig)
      (r : Reconciler FakeHandle S) (desired : Desired) (w : IsWellFormed net r.manager)
      (open_ : r.manager.closed ≡ false)
      (built : build_desired_state net is_healthy cfgs [] ≡ ok desired)
      (hosts : All (HasCanonicalHost net) cfgs) where
    abbrev pub final : Reconciler FakeHandle S
    final = (pass net rng mgr is_healthy cfgs r desired w open_ built hosts).1

    pub final-manager : final.manager ≡ (after_loops net rng desired r).manager
    final-manager =
        ap (λ (x : Option ReconcileError × Reconciler FakeHandle S). x.1.manager)
          (reconcile-fake net rng mgr is_healthy cfgs r desired w open_ built hosts)
        ∙ (conclude-manager mgr is_healthy cfgs (after_loops net rng desired r)).0

    pub final-managed : final.managed ≡ (after_loops net rng desired r).managed
    final-managed =
        ap (λ (x : Option ReconcileError × Reconciler FakeHandle S). x.1.managed)
          (reconcile-fake net rng mgr is_healthy cfgs r desired w open_ built hosts)
        ∙ (conclude-manager mgr is_healthy cfgs (after_loops net rng desired r)).1

    -- After a pass over the in-memory handle, from any well-formed open state and for any order of
    -- the maps, each service of a desired state that was built without error stands under its key
    -- with its scheduler and just its wanted destinations at their weights, if the listen hosts
    -- are in canonical form.
    pub reconcile-IsServed :
        (k : ServiceKey) (d : DesiredService)
        → lookup k desired ≡ some d
        → IsServed net (reconcile net rng (fake_handle net rng) mgr is_healthy cfgs r).1.manager k d
    reconcile-IsServed k d found =
        let u = u_desired net rng mgr is_healthy cfgs r desired w open_ built hosts in
        let m = dests_or_empty (lookup k r.manager.destinations) in
        let dm = old-IsDestMap net rng k r.manager w in
        rw (final-manager) (record {
          scheduler = ground (
            arith,
            services-after_loops net rng desired r w u k,
            sched-kept_service (lookup k r.manager.services) d.service,
          );
          has_destinations = ground (arith, destinations-after_loops net rng desired r w u k);
          weights = λ j. ground (
            arith,
            destinations-after_loops net rng desired r w u k,
            lookup-settle net rng d.destinations m dm.0 dm.1 j,
            weight-settled (lookup j (destination_map net d.destinations [])) (lookup j m),
          );
        })

    -- Over the in-memory handle in a well-formed open state, for any order of the maps, with a
    -- desired state that was built without error and listen hosts in canonical form: the pass
    -- returns no error if the rule managers return none.
    pub reconcile_success :
        (reconcile_snat net rng (fake_handle net rng) mgr is_healthy cfgs r.snat_mgr).0 ≡ none
        → (reconcile net rng (fake_handle net rng) mgr is_healthy cfgs r).0 ≡ none
    unfolding after_loops
    reconcile_success s =
        rw (reconcile-fake net rng mgr is_healthy cfgs r desired w open_ built hosts)
          ((conclude-manager mgr is_healthy cfgs (after_loops net rng desired r)).2 s)

    -- Over the in-memory handle in a well-formed open state, for any order of the maps, with a
    -- desired state that was built without error and listen hosts in canonical form: a service
    -- that is not wanted is removed with its destinations if it is managed, and otherwise it and
    -- its destinations stay as they are.
    pub reconcile-others :
        (k : ServiceKey)
        → lookup k desired ≡ none
        → let h = (reconcile net rng (fake_handle net rng) mgr is_healthy cfgs r).1.manager in
          (lookup k h.services
            ≡ (if is_managed k r.managed then none else lookup k r.manager.services))
          × (lookup k h.destinations
              ≡ (if is_managed k r.managed then none else lookup k r.manager.destinations))
    reconcile-others k missing =
        let u = u_desired net rng mgr is_healthy cfgs r desired w open_ built hosts in
        rw (final-manager) (
          ground (arith, services-after_loops net rng desired r w u k),
          ground (arith, destinations-after_loops net rng desired r w u k),
        )

    -- Over the in-memory handle in a well-formed open state, for any order of the maps, with a
    -- desired state that was built without error and listen hosts in canonical form: a key is
    -- managed after the pass just if it is wanted, or was managed with no service there.
    pub reconcile-is_managed :
        (k : ServiceKey)
        → is_managed k (reconcile net rng (fake_handle net rng) mgr is_healthy cfgs r).1.managed ≡ (
            is_some (lookup k desired)
            || (if is_some (lookup k r.manager.services) then false else is_managed k r.managed))
    reconcile-is_managed k =
        let u = u_desired net rng mgr is_healthy cfgs r desired w open_ built hosts in
        rw (final-managed) (managed-after_loops net rng desired r w u k)
