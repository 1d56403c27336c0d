-- ===== src/Lvs/Fake.antt =====
-- pkg/lvs/ipvs_handle_fake.go: the in-memory IPVS, which the tests and the builds without the
-- `integration` tag use. `closed` says that Close has set both maps to nil: a read finds
-- nothing in a nil map, and a write to one panics.
pub mod WellFormed
pub mod Calls
use fast_vip.Prelude.{
  ℕ, String, Bool, true, false, List, [], map, Option, none, some, if◌then◌else◌, Dict, lookup,
  insert, erase, is_some, MapRange, Error, error, panic, Result, ok, err,
}
use fast_vip.Net.{Net}
use fast_vip.Lvs.{Service, Destination}
use fast_vip.Lvs.Keys.{
  ServiceKey, DestinationKey, service_key_eq, destination_key_eq, service_key_from_ipvs,
  destination_key_from_ipvs,
}
use fast_vip.Lvs.Handle.{IpvsHandle, Outcome}

pub record FakeHandle : Type 0 where
  pub services : Dict ServiceKey Service
  pub destinations : Dict ServiceKey (Dict DestinationKey Destination)
  pub closed : Bool

-- NewIPVSHandle
abbrev pub new_ipvs_handle : FakeHandle
new_ipvs_handle = record { services = []; destinations = []; closed = false }

unfoldable pub clone_ip : List ℕ → List ℕ
clone_ip ip = ip

unfoldable pub clone_service : Service → Service
unfolding clone_ip
clone_service svc = record {
  sched_name = svc.sched_name;
  pe_name = svc.pe_name;
  address = clone_ip svc.address;
  stats = svc.stats;
  fw_mark = svc.fw_mark;
  flags = svc.flags;
  timeout = svc.timeout;
  netmask = svc.netmask;
  protocol = svc.protocol;
  port = svc.port;
  address_family = svc.address_family;
}

unfoldable pub clone_destination : Destination → Destination
unfolding clone_ip
clone_destination dst = record {
  address = clone_ip dst.address;
  stats = dst.stats;
  weight = dst.weight;
  active_connections = dst.active_connections;
  inactive_connections = dst.inactive_connections;
  connection_flags = dst.connection_flags;
  upper_threshold = dst.upper_threshold;
  lower_threshold = dst.lower_threshold;
  port = dst.port;
  address_family = dst.address_family;
}

abbrev pub service_exists : Error
service_exists = error "service already exists"

abbrev pub service_not_found : Error
service_not_found = error "service not found"

abbrev pub destination_exists : Error
destination_exists = error "destination already exists in service"

abbrev pub destination_not_found : Error
destination_not_found = error "destination not found in service"

abbrev pub nil_map_write : Error
nil_map_write = panic "assignment to entry in nil map"

module _ (net : Net) (rng : MapRange) where
  unfoldable pub close : FakeHandle → FakeHandle
  close h = record { services = []; destinations = []; closed = true }

  unfoldable pub new_service : Service → FakeHandle → Outcome FakeHandle
  unfolding clone_service
  new_service svc h =
      let key = service_key_from_ipvs net svc in
      if is_some (lookup key h.services)
      then (some service_exists, h)
      else if h.closed
      then (some nil_map_write, h)
      else (
        none,
        record h {
          services = insert key (clone_service svc) h.services;
          destinations = insert key [] h.destinations;
        },
      )

  unfoldable pub update_service : Service → FakeHandle → Outcome FakeHandle
  unfolding clone_service
  update_service svc h =
      let key = service_key_from_ipvs net svc in
      if is_some (lookup key h.services)
      then (none, record h { services = insert key (clone_service svc) h.services })
      else (some service_not_found, h)

  unfoldable pub del_service : Service → FakeHandle → Outcome FakeHandle
  del_service svc h =
      let key = service_key_from_ipvs net svc in
      if is_some (lookup key h.services)
      then (
        none,
        record h { services = erase key h.services; destinations = erase key h.destinations },
      )
      else (some service_not_found, h)

  unfoldable pub get_services : FakeHandle → Result (List Service)
  unfolding clone_service
  get_services h = ok (map (λ e. clone_service e.1) (rng.order ServiceKey Service h.services))

  -- The destinations of a service, replaced.
  abbrev pub put_destinations :
      ServiceKey → Dict DestinationKey Destination → FakeHandle → FakeHandle
  put_destinations key m h = record h { destinations = insert key m h.destinations }

  unfoldable pub new_destination : Service → Destination → FakeHandle → Outcome FakeHandle
  unfolding clone_destination
  new_destination svc dst h =
      let key = service_key_from_ipvs net svc in
      let dst_key = destination_key_from_ipvs net dst in
      elim (lookup key h.destinations) [
        | none ↦ (some service_not_found, h)
        | some m ↦
            if is_some (lookup dst_key m)
            then (some destination_exists, h)
            else (none, put_destinations key (insert dst_key (clone_destination dst) m) h)
      ]

  unfoldable pub update_destination : Service → Destination → FakeHandle → Outcome FakeHandle
  unfolding clone_destination
  update_destination svc dst h =
      let key = service_key_from_ipvs net svc in
      let dst_key = destination_key_from_ipvs net dst in
      elim (lookup key h.destinations) [
        | none ↦ (some service_not_found, h)
        | some m ↦
            if is_some (lookup dst_key m)
            then (none, put_destinations key (insert dst_key (clone_destination dst) m) h)
            else (some destination_not_found, h)
      ]

  unfoldable pub del_destination : Service → Destination → FakeHandle → Outcome FakeHandle
  del_destination svc dst h =
      let key = service_key_from_ipvs net svc in
      let dst_key = destination_key_from_ipvs net dst in
      elim (lookup key h.destinations) [
        | none ↦ (some service_not_found, h)
        | some m ↦
            if is_some (lookup dst_key m)
            then (none, put_destinations key (erase dst_key m) h)
            else (some destination_not_found, h)
      ]

  unfoldable pub get_destinations : Service → FakeHandle → Result (List Destination)
  unfolding clone_destination
  get_destinations svc h = elim (lookup (service_key_from_ipvs net svc) h.destinations) [
    | none ↦ err service_not_found
    | some m ↦ ok (map (λ e. clone_destination e.1) (rng.order DestinationKey Destination m))
  ]

  -- Flush makes both maps anew, also after Close.
  unfoldable pub flush : FakeHandle → Outcome FakeHandle
  flush h = (none, new_ipvs_handle)

  abbrev pub fake_handle : IpvsHandle FakeHandle
  fake_handle = record {
    close = close;
    new_service = new_service;
    update_service = update_service;
    del_service = del_service;
    get_services = get_services;
    new_destination = new_destination;
    update_destination = update_destination;
    del_destination = del_destination;
    get_destinations = get_destinations;
    flush = flush;
  }
