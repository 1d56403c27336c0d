-- ===== src/Lvs/Reconciler/Services.antt =====
-- One service of a pass over the in-memory handle, as a function of the handle's maps.
use fast_vip.Prelude.{
  true, false, List, [], Option, none, some, ◌≡◌, subst, if◌then◌else◌, ◌==◌, string_eq, Dict,
  lookup, insert, lookup-insert_self, insert-insert, insert-lookup_self, Option-cases, inl, inr,
  MapRange, arith,
}
use fast_vip.Net.{Net}
use fast_vip.Lvs.{Service, Destination}
use fast_vip.Lvs.Keys.{
  ServiceKey, DestinationKey, destination_key_eq, service_key_eq, service_key_from_ipvs,
}
use fast_vip.Lvs.Fake.{FakeHandle, fake_handle, new_service, update_service}
use fast_vip.Lvs.Fake.WellFormed.{
  IsWellFormed, IsDestMap, empty-IsDestMap, put_service-IsWellFormed,
}
use fast_vip.Lvs.Manager
use fast_vip.Lvs.Desired.{DesiredService}
use fast_vip.Lvs.Destinations.{Failure}
use fast_vip.Lvs.Destinations.Converge.{
  settle, reconcile_destinations-fake, settle-IsUnique, settle-Every,
}
use fast_vip.Lvs.Reconciler.{Reconciler, then_destinations, after_write, sync_service}

abbrev pub dests_or_empty :
    Option (Dict DestinationKey Destination) → Dict DestinationKey Destination
dests_or_empty none = []
dests_or_empty (some m) = m

-- The service that stands under a key after a pass, by the one that was there and the wanted one:
-- it is replaced only where the scheduler differs.
abbrev pub kept_service : Option Service → Service → Service
kept_service none s = s
kept_service (some old) s = if old.sched_name == s.sched_name then old else s

module _ (net : Net) (rng : MapRange) where
  -- What a pass does for a wanted service.
  unfoldable pub sync_handle : ServiceKey → DesiredService → FakeHandle → FakeHandle
  sync_handle key d h = record h {
    services = insert key (kept_service (lookup key h.services) d.service) h.services;
    destinations =
        insert key (settle net rng d.destinations (dests_or_empty (lookup key h.destinations)))
          h.destinations;
  }

  settle-IsDestMap :
      (wanted : List Destination) (m : Dict DestinationKey Destination)
      → IsDestMap net m
      → IsDestMap net (settle net rng wanted m)
  settle-IsDestMap wanted m (u, w) =
      (settle-IsUnique net rng wanted m u, settle-Every net rng wanted m u w)

  pub old-IsDestMap :
      (key : ServiceKey) (h : FakeHandle)
      → IsWellFormed net h
      → IsDestMap net (dests_or_empty (lookup key h.destinations))
  old-IsDestMap key h w = elim (Option-cases (lookup key h.destinations)) [
    | inl e ↦ rw e (empty-IsDestMap net)
    | inr (m, e) ↦ rw e (w.destinations_keyed key m e)
  ]

  kept-key :
      (key : ServiceKey) (s : Service) (h : FakeHandle)
      → IsWellFormed net h
      → service_key_from_ipvs net s ≡ key
      → service_key_from_ipvs net (kept_service (lookup key h.services) s) ≡ key
  kept-key key s h w e = elim (Option-cases (lookup key h.services)) [
    | inl x ↦ rw x e
    | inr (old, x) ↦ rw x (ground (arith, w.services_keyed key old x))
  ]

  pub sync_handle-IsWellFormed :
      (key : ServiceKey) (d : DesiredService) (h : FakeHandle)
      → service_key_from_ipvs net d.service ≡ key
      → IsWellFormed net h
      → IsWellFormed net (sync_handle key d h)
  unfolding sync_handle
  sync_handle-IsWellFormed key d h e w =
      let s = kept_service (lookup key h.services) d.service in
      let m = settle net rng d.destinations (dests_or_empty (lookup key h.destinations)) in
      subst
        (λ (k : ServiceKey).
          IsWellFormed net (record h {
            services = insert k s h.services;
            destinations = insert k m h.destinations;
          }))
        (kept-key key d.service h w e)
        (put_service-IsWellFormed net s m h w (
          settle-IsDestMap d.destinations (dests_or_empty (lookup key h.destinations))
            (old-IsDestMap key h w)))

  create-fake :
      (s : Service) (h : FakeHandle)
      → lookup (service_key_from_ipvs net s) h.services ≡ none
      → h.closed ≡ false
      → Manager.create_service (fake_handle net rng) s h ≡ (
        none,
        record h {
          services = insert (service_key_from_ipvs net s) s h.services;
          destinations = insert (service_key_from_ipvs net s) [] h.destinations;
        },
      )
  unfolding Manager.create_service new_service
  create-fake s h e c = ground arith

  update-fake :
      (s old : Service) (h : FakeHandle)
      → lookup (service_key_from_ipvs net s) h.services ≡ some old
      → Manager.update_service (fake_handle net rng) s h
        ≡ (none, record h { services = insert (service_key_from_ipvs net s) s h.services })
  unfolding Manager.update_service update_service
  update-fake s old h e = ground arith

  -- The destinations of a service that is there with the map `m`.
  module _ {S : Type 0} where
    then_destinations-fake :
        (d : DesiredService) (errs : List Failure) (r : Reconciler FakeHandle S)
        (m : Dict DestinationKey Destination)
        → lookup (service_key_from_ipvs net d.service) r.manager.destinations ≡ some m
        → IsDestMap net m
        → then_destinations net rng (fake_handle net rng) d (errs, r) ≡ (
          errs,
          record r {
            manager = record r.manager {
              destinations =
                  insert
                    (service_key_from_ipvs net d.service)
                    (settle net rng d.destinations m)
                    r.manager.destinations;
            };
          },
        )
    unfolding then_destinations
    then_destinations-fake d errs r m found (u, w) =
        rw (reconcile_destinations-fake net rng d.service d.destinations r.manager m found u w)

    abbrev pub done :
        ServiceKey → DesiredService → Reconciler FakeHandle S → Reconciler FakeHandle S
    done key d r = record r {
      manager = sync_handle key d r.manager;
      managed = insert key true r.managed;
    }

    module _ (actual : Dict ServiceKey Service) (d : DesiredService) (errs : List Failure)
        (r : Reconciler FakeHandle S) where
      abbrev pub key : ServiceKey
      key = service_key_from_ipvs net d.service

      pub sync_service-new :
          lookup key actual ≡ none
          → lookup key r.manager.services ≡ none
          → lookup key r.manager.destinations ≡ none
          → r.manager.closed ≡ false
          → sync_service net rng (fake_handle net rng) actual key d (errs, r) ≡ (errs, done key d r)
      unfolding sync_service after_write sync_handle
      sync_service-new a e x c =
          let h' = record r.manager {
            services = insert key d.service r.manager.services;
            destinations = insert key [] r.manager.destinations;
          } in
          ground (
            arith,
            create-fake d.service r.manager e c,
            then_destinations-fake d errs
                (record r { manager = h'; managed = insert key true r.managed }) []
                (lookup-insert_self key [] r.manager.destinations) (empty-IsDestMap net),
            insert-insert key (settle net rng d.destinations []) [] r.manager.destinations,
          )

      pub sync_service-old :
          (old : Service) (m : Dict DestinationKey Destination)
          → lookup key actual ≡ some old
          → lookup key r.manager.services ≡ some old
          → lookup key r.manager.destinations ≡ some m
          → IsDestMap net m
          → sync_service net rng (fake_handle net rng) actual key d (errs, r) ≡ (errs, done key d r)
      unfolding sync_service after_write sync_handle
      sync_service-old old m a e x w =
          let marked = record r { managed = insert key true r.managed } in
          ground (
            arith,
            update-fake d.service old r.manager e,
            then_destinations-fake d errs marked m x w,
            then_destinations-fake d errs
                (record marked {
                  manager = record r.manager { services = insert key d.service r.manager.services };
                })
                m x w,
            insert-lookup_self key old r.manager.services,
          )
