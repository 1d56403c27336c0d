-- ===== src/Lvs/Fake/Calls.antt =====
-- Sequences of calls of the in-memory handle of pkg/lvs/ipvs_handle_fake.go.
use fast_vip.Prelude.{
  true, false, List, [], ◌∷◌, some, ◌≡◌, refl, Bool-cases, Option-cases, inl, inr, Dict, lookup,
  insert, is_some, lookup-insert, insert-Every, insert-IsUnique, MapRange, ==_iff, arith,
}
use fast_vip.Net.{Net}
use fast_vip.Lvs.{Service, Destination}
use fast_vip.Lvs.Keys.{
  ServiceKey, DestinationKey, destination_key_eq, service_key_eq, service_key_from_ipvs,
  destination_key_from_ipvs, ServiceKeyedBy,
}
use fast_vip.Lvs.Fake.{
  FakeHandle, close, new_service, update_service, del_service, new_destination, update_destination,
  del_destination, flush,
}
use fast_vip.Lvs.Fake.WellFormed.{
  IsWellFormed, IsDestMap, empty-IsDestMap, insert-IsDestMap, erase-IsDestMap,
  put_service-IsWellFormed, put_destinations-IsWellFormed, erase-IsWellFormed, empty-IsWellFormed,
}

pub data Call : Type 0 where
  closes flushes : Call
  new_services update_services del_services : Service → Call
  new_destinations update_destinations del_destinations : Service → Destination → Call

module _ (net : Net) (rng : MapRange) where
  -- The state after a call, whether it succeeds or fails.
  unfoldable pub step : Call → FakeHandle → FakeHandle
  step closes h = close net rng h
  step flushes h = (flush net rng h).1
  step (new_services s) h = (new_service net rng s h).1
  step (update_services s) h = (update_service net rng s h).1
  step (del_services s) h = (del_service net rng s h).1
  step (new_destinations s d) h = (new_destination net rng s d h).1
  step (update_destinations s d) h = (update_destination net rng s d h).1
  step (del_destinations s d) h = (del_destination net rng s d h).1

  unfoldable pub run : List Call → FakeHandle → FakeHandle
  run [] h = h
  run (c ∷ cs) h = run cs (step c h)

  update_service-IsWellFormed :
      (s : Service) (h : FakeHandle)
      → IsWellFormed net h
      → IsWellFormed net (update_service net rng s h).1
  unfolding update_service
  update_service-IsWellFormed s h w =
      let key = service_key_from_ipvs net s in
      elim (Bool-cases (is_some (lookup key h.services))) [
        | inl old ↦
            rw (old, update_service)
              (record {
                services_unique = insert-IsUnique key s h.services w.services_unique;
                services_keyed =
                    insert-Every (ServiceKeyedBy net) key s h.services refl w.services_keyed;
                destinations_unique = w.destinations_unique;
                paired =
                    λ k. ground (arith, w.paired k, ==_iff key k, lookup-insert key k s h.services);
                destinations_keyed = w.destinations_keyed;
              })
        | inr new ↦ rw (new, update_service) w
      ]

  -- A map that is replaced stays a map of destinations.
  put_found :
      (key : ServiceKey) (h : FakeHandle) (m m' : Dict DestinationKey Destination)
      → IsWellFormed net h
      → lookup key h.destinations ≡ some m
      → (IsDestMap net m → IsDestMap net m')
      → IsWellFormed net (record h { destinations = insert key m' h.destinations })
  put_found key h m m' w e f =
      put_destinations-IsWellFormed net key m' h w (rw e) (f (w.destinations_keyed key m e))

  step-IsWellFormed : (c : Call) (h : FakeHandle) → IsWellFormed net h → IsWellFormed net (step c h)
  unfolding step close flush new_service del_service new_destination update_destination
      del_destination
  step-IsWellFormed closes h w = empty-IsWellFormed net true
  step-IsWellFormed flushes h w = empty-IsWellFormed net false
  step-IsWellFormed (new_services s) h w =
      ground (arith, put_service-IsWellFormed net s [] h w (empty-IsDestMap net))
  step-IsWellFormed (update_services s) h w = update_service-IsWellFormed s h w
  step-IsWellFormed (del_services s) h w =
      ground (arith, erase-IsWellFormed net (service_key_from_ipvs net s) h w)
  step-IsWellFormed (new_destinations s d) h w =
      elim (Option-cases (lookup (service_key_from_ipvs net s) h.destinations)) [
        | inl e ↦ rw (e, step, new_destination) w
        | inr (m, e) ↦
            rw (e, step, new_destination)
              (ground (arith, put_found _ h m _ w e (insert-IsDestMap net d m)))
      ]
  step-IsWellFormed (update_destinations s d) h w =
      elim (Option-cases (lookup (service_key_from_ipvs net s) h.destinations)) [
        | inl e ↦ rw (e, step, update_destination) w
        | inr (m, e) ↦
            rw (e, step, update_destination)
              (ground (arith, put_found _ h m _ w e (insert-IsDestMap net d m)))
      ]
  step-IsWellFormed (del_destinations s d) h w =
      elim (Option-cases (lookup (service_key_from_ipvs net s) h.destinations)) [
        | inl e ↦ rw (e, step, del_destination) w
        | inr (m, e) ↦
            rw (e, step, del_destination)
              (ground (
                arith,
                put_found _ h m _ w e (erase-IsDestMap net (destination_key_from_ipvs net d) m),
              ))
      ]

  -- From a well-formed state, whatever calls are made and whether they succeed or fail, each map
  -- of the in-memory handle holds a key once and each entry under its own key, and the services
  -- are just those that have a map of destinations.
  pub run-IsWellFormed :
      (cs : List Call) (h : FakeHandle) → IsWellFormed net h → IsWellFormed net (run cs h)
  unfolding run
  run-IsWellFormed [] h w = w
  run-IsWellFormed (c ∷ cs) h w = run-IsWellFormed cs (step c h) (step-IsWellFormed c h w)
