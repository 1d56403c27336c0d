-- ===== src/Lvs/Fake/WellFormed.antt =====
-- The invariant of the in-memory handle of pkg/lvs/ipvs_handle_fake.go, and the operations on it.
use fast_vip.Prelude.{
  Bool, true, [], ◌≡◌, refl, ==_iff, Dict, lookup, insert, erase, is_some, IsUnique, lookup-insert,
  lookup-erase, insert-IsUnique, erase-IsUnique, Every, insert-Every, erase-Every, Every-empty,
  arith,
}
use fast_vip.Net.{Net}
use fast_vip.Lvs.{Service, Destination}
use fast_vip.Lvs.Keys.{
  ServiceKey, DestinationKey, destination_key_eq, service_key_eq, service_key_from_ipvs,
  destination_key_from_ipvs, KeyedBy, ServiceKeyedBy,
}
use fast_vip.Lvs.Fake.{FakeHandle}

-- The destinations of one service.
abbrev pub IsDestMap : Net → Dict DestinationKey Destination → Type 0
IsDestMap net m = IsUnique m × Every (KeyedBy net) m

-- Each map holds a key once, and each entry under its own key; the services are just those that
-- have a map of destinations.
pub record IsWellFormed (net : Net) (h : FakeHandle) : Type 0 where
  pub services_unique : IsUnique h.services
  pub services_keyed : Every (ServiceKeyedBy net) h.services
  pub destinations_unique : IsUnique h.destinations
  pub paired : (k : ServiceKey) → is_some (lookup k h.services) ≡ is_some (lookup k h.destinations)
  pub destinations_keyed : Every (λ k m. IsDestMap net m) h.destinations

module _ (net : Net) where
  pub empty-IsDestMap : IsDestMap net []
  empty-IsDestMap = (tt, Every-empty (KeyedBy net))

  pub insert-IsDestMap :
      (d : Destination) (m : Dict DestinationKey Destination)
      → IsDestMap net m
      → IsDestMap net (insert (destination_key_from_ipvs net d) d m)
  insert-IsDestMap d m h = (
    insert-IsUnique (destination_key_from_ipvs net d) d m h.0,
    insert-Every (KeyedBy net) (destination_key_from_ipvs net d) d m refl h.1,
  )

  pub erase-IsDestMap :
      (k : DestinationKey) (m : Dict DestinationKey Destination)
      → IsDestMap net m
      → IsDestMap net (erase k m)
  erase-IsDestMap k m h = (erase-IsUnique k m h.0, erase-Every (KeyedBy net) k m h.1)

  -- The two writes that the operations are made of.
  pub put_service-IsWellFormed :
      (s : Service) (m : Dict DestinationKey Destination) (h : FakeHandle)
      → IsWellFormed net h
      → IsDestMap net m
      → IsWellFormed net (record h {
        services = insert (service_key_from_ipvs net s) s h.services;
        destinations = insert (service_key_from_ipvs net s) m h.destinations;
      })
  put_service-IsWellFormed s m h w d =
      let key = service_key_from_ipvs net s in
      record {
        services_unique = insert-IsUnique key s h.services w.services_unique;
        services_keyed = insert-Every (ServiceKeyedBy net) key s h.services refl w.services_keyed;
        destinations_unique = insert-IsUnique key m h.destinations w.destinations_unique;
        paired = λ k. ground (
          arith,
          w.paired k,
          lookup-insert key k s h.services,
          lookup-insert key k m h.destinations,
        );
        destinations_keyed =
            insert-Every (λ k x. IsDestMap net x) key m h.destinations d w.destinations_keyed;
      }

  pub put_destinations-IsWellFormed :
      (key : ServiceKey) (m : Dict DestinationKey Destination) (h : FakeHandle)
      → IsWellFormed net h
      → is_some (lookup key h.destinations) ≡ true
      → IsDestMap net m
      → IsWellFormed net (record h { destinations = insert key m h.destinations })
  put_destinations-IsWellFormed key m h w p d = record {
    services_unique = w.services_unique;
    services_keyed = w.services_keyed;
    destinations_unique = insert-IsUnique key m h.destinations w.destinations_unique;
    paired = λ k. ground (arith, w.paired k, ==_iff key k, lookup-insert key k m h.destinations);
    destinations_keyed =
        insert-Every (λ k x. IsDestMap net x) key m h.destinations d w.destinations_keyed;
  }

  pub erase-IsWellFormed :
      (key : ServiceKey) (h : FakeHandle)
      → IsWellFormed net h
      → IsWellFormed net
          (record h { services = erase key h.services; destinations = erase key h.destinations })
  erase-IsWellFormed key h w = record {
    services_unique = erase-IsUnique key h.services w.services_unique;
    services_keyed = erase-Every (ServiceKeyedBy net) key h.services w.services_keyed;
    destinations_unique = erase-IsUnique key h.destinations w.destinations_unique;
    paired = λ k.
        ground
          (arith, w.paired k, lookup-erase key k h.services, lookup-erase key k h.destinations);
    destinations_keyed =
        erase-Every (λ k x. IsDestMap net x) key h.destinations w.destinations_keyed;
  }

  pub empty-IsWellFormed :
      (closed : Bool)
      → IsWellFormed net (record { services = []; destinations = []; closed = closed })
  unfolding lookup
  empty-IsWellFormed closed = record {
    services_unique = tt;
    services_keyed = Every-empty (ServiceKeyedBy net);
    destinations_unique = tt;
    paired = λ k. refl;
    destinations_keyed = Every-empty (λ k x. IsDestMap net x);
  }
