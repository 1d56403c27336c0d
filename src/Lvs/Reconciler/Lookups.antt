-- ===== src/Lvs/Reconciler/Lookups.antt =====
-- What stands under each key after the loops of a pass, and in the maps that it builds.
use fast_vip.Prelude.{
  Bool, true, ◌||◌, List, [], ◌∷◌, map, none, some, ◌≡◌, refl, if◌then◌else◌, ==_iff, Dict, lookup,
  insert, erase, is_some, or_else, IsUnique, lookup-insert, lookup-erase, insert-IsUnique,
  insert-Every, MapRange, Every, Every-head, Every-tail, arith,
}
use fast_vip.Net.{Net}
use fast_vip.Lvs.{Service}
use fast_vip.Lvs.Keys.{
  ServiceKey, destination_key_eq, service_key_eq, service_key_from_ipvs, ServiceKeyedBy,
}
use fast_vip.Lvs.Fake.{FakeHandle, clone_service}
use fast_vip.Lvs.Destinations.Converge.{settle}
use fast_vip.Lvs.Reconciler.{is_managed, actual_map}
use fast_vip.Lvs.Reconciler.Services.{dests_or_empty, kept_service, sync_handle}
use fast_vip.Lvs.Reconciler.Loops.{
  Desired, mark_all, unmark, drop_handle, drop_handles, sync_handles,
}

pub lookup-mark_all :
    (es : Desired) (m : Dict ServiceKey Bool) (j : ServiceKey)
    → lookup j (mark_all es m) ≡ (if is_some (lookup j es) then some true else lookup j m)
unfolding mark_all lookup
lookup-mark_all [] m j = refl
lookup-mark_all ((k, d) ∷ es) m j =
    ground (arith, lookup-mark_all es (insert k true m) j, lookup-insert k j true m, ==_iff k j)

pub lookup-unmark :
    (desired : Desired) (es : Dict ServiceKey Service) (m : Dict ServiceKey Bool) (j : ServiceKey)
    → lookup j (unmark desired es m) ≡ (
        if is_some (lookup j desired)
        then lookup j m
        else if is_some (lookup j es)
        then none
        else lookup j m)
unfolding unmark lookup
lookup-unmark desired [] m j = ground arith
lookup-unmark desired ((k, s) ∷ es) m j = ground (
  arith,
  lookup-unmark desired es (if is_some (lookup k desired) then m else erase k m) j,
  lookup-erase k j m,
  ==_iff k j,
)

module _ (desired : Desired) where
  pub services-drop_handles :
      (es : Dict ServiceKey Service) (h : FakeHandle) (j : ServiceKey)
      → lookup j (drop_handles desired es h).services ≡ (
          if is_some (lookup j desired)
          then lookup j h.services
          else if is_some (lookup j es)
          then none
          else lookup j h.services)
  unfolding drop_handles drop_handle lookup
  services-drop_handles [] h j = ground arith
  services-drop_handles ((k, s) ∷ es) h j = ground (
    arith,
    services-drop_handles es (drop_handle desired k h) j,
    lookup-erase k j h.services,
    ==_iff k j,
  )

  pub destinations-drop_handles :
      (es : Dict ServiceKey Service) (h : FakeHandle) (j : ServiceKey)
      → lookup j (drop_handles desired es h).destinations ≡ (
          if is_some (lookup j desired)
          then lookup j h.destinations
          else if is_some (lookup j es)
          then none
          else lookup j h.destinations)
  unfolding drop_handles drop_handle lookup
  destinations-drop_handles [] h j = ground arith
  destinations-drop_handles ((k, s) ∷ es) h j = ground (
    arith,
    destinations-drop_handles es (drop_handle desired k h) j,
    lookup-erase k j h.destinations,
    ==_iff k j,
  )

module _ (net : Net) (rng : MapRange) where
  pub services-sync_handles :
      (es : Desired) (h : FakeHandle) (j : ServiceKey)
      → IsUnique es
      → lookup j (sync_handles net rng es h).services ≡ elim (lookup j es) [
        | none ↦ lookup j h.services
        | some d ↦ some (kept_service (lookup j h.services) d.service)
      ]
  unfolding sync_handles sync_handle lookup
  services-sync_handles [] h j u = refl
  services-sync_handles ((k, d) ∷ es) h j u = ground (
    arith,
    services-sync_handles es (sync_handle net rng k d h) j u.1,
    lookup-insert k j (kept_service (lookup k h.services) d.service) h.services,
    ==_iff k j,
  )

  pub destinations-sync_handles :
      (es : Desired) (h : FakeHandle) (j : ServiceKey)
      → IsUnique es
      → lookup j (sync_handles net rng es h).destinations ≡ elim (lookup j es) [
        | none ↦ lookup j h.destinations
        | some d ↦ some (settle net rng d.destinations (dests_or_empty (lookup j h.destinations)))
      ]
  unfolding sync_handles sync_handle lookup
  destinations-sync_handles [] h j u = refl
  destinations-sync_handles ((k, d) ∷ es) h j u = ground (
    arith,
    destinations-sync_handles es (sync_handle net rng k d h) j u.1,
    lookup-insert k j (settle net rng d.destinations (dests_or_empty (lookup k h.destinations)))
        h.destinations,
    ==_iff k j,
  )

module _ (net : Net) (managed : Dict ServiceKey Bool) (desired : Desired) where
  pub lookup-actual_map :
      (es acc : Dict ServiceKey Service) (j : ServiceKey)
      → IsUnique es
      → Every (ServiceKeyedBy net) es
      → lookup j (actual_map net managed desired (map (λ e. clone_service e.1) es) acc) ≡ (
          if is_managed j managed || is_some (lookup j desired)
          then or_else (lookup j es) (lookup j acc)
          else lookup j acc)
  unfolding actual_map lookup clone_service
  lookup-actual_map [] acc j u w = ground arith
  lookup-actual_map ((k, s) ∷ es) acc j u w =
      let key = service_key_from_ipvs net s in
      ground (
        arith,
        lookup-actual_map es
            (if is_managed key managed || is_some (lookup key desired)
              then insert key s acc
              else acc)
            j u.1 (Every-tail (ServiceKeyedBy net) k s es u w),
        lookup-insert key j s acc,
        Every-head (ServiceKeyedBy net) k s es w,
        ==_iff k j,
      )

  pub actual_map-IsUnique :
      (svcs : List Service) (acc : Dict ServiceKey Service)
      → IsUnique acc
      → IsUnique (actual_map net managed desired svcs acc)
  unfolding actual_map
  actual_map-IsUnique [] acc u = u
  actual_map-IsUnique (s ∷ svcs) acc u =
      actual_map-IsUnique svcs _
        (ground (arith, insert-IsUnique (service_key_from_ipvs net s) s acc u))

  pub actual_map-Every :
      (svcs : List Service) (acc : Dict ServiceKey Service)
      → Every (ServiceKeyedBy net) acc
      → Every (ServiceKeyedBy net) (actual_map net managed desired svcs acc)
  unfolding actual_map
  actual_map-Every [] acc w = w
  actual_map-Every (s ∷ svcs) acc w =
      let key = service_key_from_ipvs net s in
      actual_map-Every svcs _
        (λ k x found. ground (arith, w k x, insert-Every (ServiceKeyedBy net) key s acc refl w k x))
