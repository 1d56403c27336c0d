-- ===== src/Lvs/Reconciler/Cleanup.antt =====
-- pkg/lvs/reconciler.go: Cleanup, over any IPVS handle, and then over the in-memory one.
use fast_vip.Prelude.{
  Bool, true, List, [], ◌∷◌, ◌++◌, map, Option, none, some, ◌≡◌, refl, sym, ◌∙◌, if◌then◌else◌,
  ==_iff, Dict, lookup, insert, erase, is_some, IsUnique, lookup-insert, lookup-erase, Every,
  Every-head, Every-tail, MapRange, wrap, ok, err, Option-cases, inl, inr, or_else, arith,
}
use fast_vip.Net.{Net}
use fast_vip.Lvs.{Service}
use fast_vip.Lvs.Keys.{ServiceKey, service_key_eq, service_key_from_ipvs, ServiceKeyedBy}
use fast_vip.Lvs.Handle.{IpvsHandle}
use fast_vip.Lvs.Manager
use fast_vip.Lvs.Fake.{FakeHandle, fake_handle, del_service, get_services, clone_service}
use fast_vip.Lvs.Fake.WellFormed.{IsWellFormed}
use fast_vip.Lvs.Destinations.{Failure, single}
use fast_vip.Lvs.Reconciler.{Reconciler, ReconcileError, stopped, joined}

module _ (net : Net) where
  -- All services of the kernel by key.
  unfoldable pub service_map : List Service → Dict ServiceKey Service → Dict ServiceKey Service
  service_map [] acc = acc
  service_map (svc ∷ rest) acc = service_map rest (insert (service_key_from_ipvs net svc) svc acc)

module _ {H S : Type 0} (ops : IpvsHandle H) where
  -- A managed key whose service is gone is forgotten.
  unfoldable pub cleanup_service :
      Dict ServiceKey Service
      → ServiceKey
      → List Failure × Reconciler H S
      → List Failure × Reconciler H S
  cleanup_service actual key (errs, r) = elim (lookup key actual) [
    | none ↦ (errs, record r { managed = erase key r.managed })
    | some svc ↦
        let (e, h) = Manager.delete_service ops svc r.manager in
        elim e [
          | none ↦ (errs, record r { manager = h; managed = erase key r.managed })
          | some x ↦ (errs ++ single (wrap "delete service" x) ∷ [], record r { manager = h })
        ]
  ]

  unfoldable pub cleanup_services :
      Dict ServiceKey Service
      → Dict ServiceKey Bool
      → List Failure × Reconciler H S
      → List Failure × Reconciler H S
  cleanup_services actual [] s = s
  cleanup_services actual ((key, b) ∷ rest) s =
      cleanup_services actual rest (cleanup_service actual key s)

  abbrev pub cleanup_result : List Failure × Reconciler H S → Option ReconcileError × Reconciler H S
  cleanup_result ([], r) = (none, r)
  cleanup_result (e ∷ errs, r) = (some (joined (e ∷ errs)), r)

  unfoldable pub cleanup : Net → MapRange → Reconciler H S → Option ReconcileError × Reconciler H S
  cleanup net rng r =
      let present = Manager.get_services ops r.manager in
      elim present [
        | err e ↦ (some (stopped (wrap "failed to get IPVS services for cleanup" e)), r)
        | ok svcs ↦ cleanup_result (
            cleanup_services (service_map net svcs []) (rng.order ServiceKey Bool r.managed)
              ([], r))
      ]

module _ (net : Net) where
  lookup-service_map :
      (es acc : Dict ServiceKey Service) (j : ServiceKey)
      → IsUnique es
      → Every (ServiceKeyedBy net) es
      → lookup j (service_map net (map (λ e. clone_service e.1) es) acc)
        ≡ or_else (lookup j es) (lookup j acc)
  unfolding service_map lookup clone_service
  lookup-service_map [] acc j u w = refl
  lookup-service_map ((k, s) ∷ es) acc j u w = ground (
    arith,
    lookup-service_map es (insert (service_key_from_ipvs net s) s acc) j u.1
        (Every-tail (ServiceKeyedBy net) k s es u w),
    lookup-insert (service_key_from_ipvs net s) j s acc,
    Every-head (ServiceKeyedBy net) k s es w,
    ==_iff k j,
  )

module _ {S : Type 0} (net : Net) (rng : MapRange) (actual : Dict ServiceKey Service)
    (keyed : Every (ServiceKeyedBy net) actual) where
  -- What is left of an entry of the handle or of the managed set.
  abbrev IsCleaned :
      Dict ServiceKey Bool
      → List Failure × Reconciler FakeHandle S
      → List Failure × Reconciler FakeHandle S
      → Type 0
  IsCleaned es (errs, r) (errs', r') =
      (errs' ≡ errs)
      × ((j : ServiceKey)
          → (lookup j r'.manager.services
              ≡ (if is_some (lookup j es) then none else lookup j r.manager.services))
            × (lookup j r'.manager.destinations
                ≡ (if is_some (lookup j es) then none else lookup j r.manager.destinations))
            × (lookup j r'.managed ≡ (if is_some (lookup j es) then none else lookup j r.managed)))

  cleanup_service-fake :
      (k : ServiceKey) (b : Bool) (errs : List Failure) (r : Reconciler FakeHandle S)
      → lookup k actual ≡ lookup k r.manager.services
      → is_some (lookup k r.manager.services) ≡ is_some (lookup k r.manager.destinations)
      → IsCleaned ((k, b) ∷ []) (errs, r) (cleanup_service (fake_handle net rng) actual k (errs, r))
  unfolding cleanup_service Manager.delete_service del_service lookup
  cleanup_service-fake k b errs r same paired = elim (Option-cases (lookup k actual)) [
    | inl e ↦
        rw (e, cleanup_service)
          (
            refl,
            λ j. (
              ground (arith, ==_iff k j),
              ground (arith, ==_iff k j),
              ground (arith, lookup-erase k j r.managed),
            ),
          )
    | inr (s, e) ↦
        let found : is_some (lookup (service_key_from_ipvs net s) r.manager.services) ≡ true =
          ground (arith, keyed k s) in
        rw (e, found, cleanup_service, Manager.delete_service, del_service)
          (
            refl,
            λ j. (
              ground (
                arith,
                keyed k s,
                lookup-erase (service_key_from_ipvs net s) j r.manager.services,
              ),
              ground (
                arith,
                keyed k s,
                lookup-erase (service_key_from_ipvs net s) j r.manager.destinations,
              ),
              ground (arith, lookup-erase k j r.managed),
            ),
          )
  ]

  cleanup_services-fake :
      (es : Dict ServiceKey Bool) (errs : List Failure) (r : Reconciler FakeHandle S)
      → IsUnique es
      → ((j : ServiceKey)
          → is_some (lookup j es) ≡ true
          → lookup j actual ≡ lookup j r.manager.services)
      → ((j : ServiceKey)
          → is_some (lookup j r.manager.services) ≡ is_some (lookup j r.manager.destinations))
      → IsCleaned es (errs, r) (cleanup_services (fake_handle net rng) actual es (errs, r))
  unfolding cleanup_services lookup
  cleanup_services-fake [] errs r u same paired = (refl, λ j. (refl, refl, refl))
  cleanup_services-fake ((k, b) ∷ es) errs r u same paired =
      let one = cleanup_service-fake k b errs r (same k (ground (arith, ==_iff k k))) (paired k) in
      let s = cleanup_service (fake_handle net rng) actual k (errs, r) in
      let rest =
        cleanup_services-fake es s.0 s.1 u.1 (λ j p. ground (arith, one.1 j, same j, ==_iff k j))
          (λ j. ground (arith, one.1 j, paired j, ==_iff k j)) in
      (
        rest.0 ∙ one.0,
        λ j. (
          ground (arith, one.1 j, rest.1 j),
          ground (arith, one.1 j, rest.1 j),
          ground (arith, one.1 j, rest.1 j),
        ),
      )

result_success :
    {H S : Type 0} (ops : IpvsHandle H) (x : List Failure × Reconciler H S)
    → x.0 ≡ []
    → ((cleanup_result ops x).0 ≡ none) × ((cleanup_result ops x).1 ≡ x.1)
result_success ops ([], r) e = (refl, refl)
result_success ops (f ∷ fs, r) e = absurd (ground arith)

module _ {S : Type 0} (net : Net) (rng : MapRange) where
  -- Over the in-memory handle in a well-formed state, with a managed set that holds a key once:
  -- Cleanup returns no error and leaves nothing managed, and removes the service and the
  -- destinations of just the keys that were managed.
  pub cleanup_exact :
      (r : Reconciler FakeHandle S)
      → IsWellFormed net r.manager
      → IsUnique r.managed
      → let result = cleanup (fake_handle net rng) net rng r in
        (result.0 ≡ none)
        × ((k : ServiceKey)
            → (lookup k result.1.managed ≡ none)
              × (lookup k result.1.manager.services
                  ≡ (if is_some (lookup k r.managed) then none else lookup k r.manager.services))
              × (lookup k result.1.manager.destinations ≡ (
                  if is_some (lookup k r.managed) then none else lookup k r.manager.destinations)))
  unfolding cleanup Manager.get_services get_services lookup
  cleanup_exact r w u =
      let us = w.services_unique in
      let order = rng.order ServiceKey Service r.manager.services in
      let order_keyed : Every (ServiceKeyedBy net) order = λ k s found.
        w.services_keyed k s
          (sym (rng.lookup-order ServiceKey Service k r.manager.services us) ∙ found) in
      let actual = service_map net (map (λ e. clone_service e.1) order) [] in
      let at_ : (j : ServiceKey) → lookup j actual ≡ lookup j r.manager.services = λ j. ground (
        arith,
        lookup-service_map net order [] j
            (rng.order-IsUnique ServiceKey Service r.manager.services us) order_keyed,
        rng.lookup-order ServiceKey Service j r.manager.services us,
      ) in
      let keyed : Every (ServiceKeyedBy net) actual =
        λ k s found. w.services_keyed k s (sym (at_ k) ∙ found) in
      let done =
        cleanup_services-fake net rng actual keyed (rng.order ServiceKey Bool r.managed) [] r
          (rng.order-IsUnique ServiceKey Bool r.managed u) (λ j p. at_ j) w.paired in
      let x =
        cleanup_services (fake_handle net rng) actual (rng.order ServiceKey Bool r.managed)
          ([], r) in
      let (ok_, same) = result_success (fake_handle net rng) x done.0 in
      (
        ok_,
        λ k. rw same (
          ground (arith, done.1 k, rng.lookup-order ServiceKey Bool k r.managed u),
          ground (arith, done.1 k, rng.lookup-order ServiceKey Bool k r.managed u),
          ground (arith, done.1 k, rng.lookup-order ServiceKey Bool k r.managed u),
        ),
      )
