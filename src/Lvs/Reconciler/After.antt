-- ===== src/Lvs/Reconciler/After.antt =====
-- The state that the two loops of a pass leave over the in-memory handle, under each key.
use fast_vip.Prelude.{
  false, ◌||◌, [], map, none, some, ◌≡◌, sym, ◌∙◌, if◌then◌else◌, Dict, lookup, is_some, IsUnique,
  MapRange, arith,
}
use fast_vip.Net.{Net}
use fast_vip.Lvs.{Service}
use fast_vip.Lvs.Keys.{ServiceKey, destination_key_eq, service_key_eq}
use fast_vip.Lvs.Fake.{FakeHandle, clone_service}
use fast_vip.Lvs.Fake.WellFormed.{IsWellFormed}
use fast_vip.Lvs.Desired.{DesiredService}
use fast_vip.Lvs.Destinations.Converge.{settle}
use fast_vip.Lvs.Reconciler.{Reconciler, is_managed, actual_map}
use fast_vip.Lvs.Reconciler.Services.{dests_or_empty, kept_service}
use fast_vip.Lvs.Reconciler.Loops.{Desired, mark_all, unmark, drop_handles, sync_handles}
use fast_vip.Lvs.Reconciler.Lookups.{
  lookup-mark_all, lookup-unmark, services-drop_handles, destinations-drop_handles,
  services-sync_handles, destinations-sync_handles, lookup-actual_map, actual_map-IsUnique,
}

module _ {S : Type 0} (net : Net) (rng : MapRange) where
  module _ (desired : Desired) (r : Reconciler FakeHandle S) where
    abbrev pub present : Dict ServiceKey Service
    present =
        actual_map net r.managed desired
          (map (λ e. clone_service e.1) (rng.order ServiceKey Service r.manager.services)) []

    -- The state after both loops of a pass.
    unfoldable pub after_loops : Reconciler FakeHandle S
    after_loops = record r {
      manager =
          drop_handles desired (rng.order ServiceKey Service present)
            (sync_handles net rng (rng.order ServiceKey DesiredService desired) r.manager);
      managed =
          unmark desired (rng.order ServiceKey Service present)
            (mark_all (rng.order ServiceKey DesiredService desired) r.managed);
    }

    module _ (w : IsWellFormed net r.manager) (u : IsUnique desired) where
      abbrev pub u_order : IsUnique (rng.order ServiceKey DesiredService desired)
      u_order = rng.order-IsUnique ServiceKey DesiredService desired u

      abbrev pub u_present : IsUnique present
      u_present =
          actual_map-IsUnique net r.managed desired
            (map (λ e. clone_service e.1) (rng.order ServiceKey Service r.manager.services)) [] tt

      pub lookup-present :
          (j : ServiceKey)
          → lookup j present ≡ (
              if is_managed j r.managed || is_some (lookup j desired)
              then lookup j r.manager.services
              else none)
      unfolding lookup
      lookup-present j =
          let us = w.services_unique in
          ground (
            arith,
            lookup-actual_map net r.managed desired
                (rng.order ServiceKey Service r.manager.services) [] j
                (rng.order-IsUnique ServiceKey Service r.manager.services us)
                (λ k s found.
                  w.services_keyed k s
                    (sym (rng.lookup-order ServiceKey Service k r.manager.services us) ∙ found)),
            rng.lookup-order ServiceKey Service j r.manager.services us,
          )

      abbrev pub order_desired :
          (j : ServiceKey)
          → lookup j (rng.order ServiceKey DesiredService desired) ≡ lookup j desired
      order_desired j = rng.lookup-order ServiceKey DesiredService j desired u

      abbrev pub order_present :
          (j : ServiceKey) → lookup j (rng.order ServiceKey Service present) ≡ lookup j present
      order_present j = rng.lookup-order ServiceKey Service j present u_present

      -- The service under each key after the loops.
      pub services-after_loops :
          (j : ServiceKey)
          → lookup j after_loops.manager.services ≡ elim (lookup j desired) [
            | some d ↦ some (kept_service (lookup j r.manager.services) d.service)
            | none ↦ if is_managed j r.managed then none else lookup j r.manager.services
          ]
      unfolding after_loops
      services-after_loops j =
          let order = rng.order ServiceKey DesiredService desired in
          ground (
            arith,
            services-drop_handles desired (rng.order ServiceKey Service present)
                (sync_handles net rng order r.manager) j,
            services-sync_handles net rng order r.manager j u_order,
            order_desired j,
            order_present j,
            lookup-present j,
          )

      -- The destinations under each key after the loops.
      pub destinations-after_loops :
          (j : ServiceKey)
          → lookup j after_loops.manager.destinations ≡ elim (lookup j desired) [
            | some d ↦
                some
                  (settle net rng d.destinations (dests_or_empty (lookup j r.manager.destinations)))
            | none ↦ if is_managed j r.managed then none else lookup j r.manager.destinations
          ]
      unfolding after_loops
      destinations-after_loops j =
          let order = rng.order ServiceKey DesiredService desired in
          ground (
            arith,
            destinations-drop_handles desired (rng.order ServiceKey Service present)
                (sync_handles net rng order r.manager) j,
            destinations-sync_handles net rng order r.manager j u_order,
            order_desired j,
            order_present j,
            lookup-present j,
            w.paired j,
          )

      -- The managed set after the loops.
      pub managed-after_loops :
          (j : ServiceKey)
          → is_managed j after_loops.managed ≡ (
              is_some (lookup j desired)
              || (if is_some (lookup j r.manager.services) then false else is_managed j r.managed))
      unfolding after_loops is_managed
      managed-after_loops j =
          let order = rng.order ServiceKey DesiredService desired in
          ground (
            arith,
            lookup-unmark desired (rng.order ServiceKey Service present) (mark_all order r.managed)
                j,
            lookup-mark_all order r.managed j,
            order_desired j,
            order_present j,
            lookup-present j,
          )
