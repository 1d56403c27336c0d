-- ===== src/Lvs/Linux.antt =====
-- pkg/lvs/ipvs_handle_linux.go: the handle over the netlink library moby/ipvs, whose operations on any state
-- `K` of the kernel are a record. Of the library's records these are the fields that the code reads and writes.
use fast_vip.Prelude.{ℕ, ℤ, pos, String, List, Result, ok, err, map}
use fast_vip.Lvs.{Service, Destination, SvcStats, no_stats}
use fast_vip.Lvs.Handle.{IpvsHandle, Outcome}
use fast_vip.Lvs.Fake.{clone_ip}

pub record MobyService : Type 0 where
  pub address : List ℕ
  pub protocol : ℕ
  pub port : ℕ
  pub fw_mark : ℕ
  pub sched_name : String
  pub flags : ℕ
  pub timeout : ℕ
  pub netmask : ℕ
  pub address_family : ℕ
  pub pe_name : String
  pub stats : SvcStats

pub record MobyDestination : Type 0 where
  pub address : List ℕ
  pub port : ℕ
  pub weight : ℤ
  pub connection_flags : ℕ
  pub address_family : ℕ
  pub upper_threshold : ℕ
  pub lower_threshold : ℕ
  pub active_connections : ℤ
  pub inactive_connections : ℤ
  pub stats : SvcStats

pub record MobyHandle (K : Type 0) : Type 0 where
  pub close : K → K
  pub new_service : MobyService → K → Outcome K
  pub update_service : MobyService → K → Outcome K
  pub del_service : MobyService → K → Outcome K
  pub get_services : K → Result (List MobyService)
  pub new_destination : MobyService → MobyDestination → K → Outcome K
  pub update_destination : MobyService → MobyDestination → K → Outcome K
  pub del_destination : MobyService → MobyDestination → K → Outcome K
  pub get_destinations : MobyService → K → Result (List MobyDestination)
  pub flush : K → Outcome K

-- The statistics are left at their zero values.
unfoldable pub to_moby_service : Service → MobyService
to_moby_service svc = record {
  address = clone_ip svc.address;
  protocol = svc.protocol;
  port = svc.port;
  fw_mark = svc.fw_mark;
  sched_name = svc.sched_name;
  flags = svc.flags;
  timeout = svc.timeout;
  netmask = svc.netmask;
  address_family = svc.address_family;
  pe_name = svc.pe_name;
  stats = no_stats;
}

unfoldable pub from_moby_service : MobyService → Service
from_moby_service ms = record {
  address = clone_ip ms.address;
  protocol = ms.protocol;
  port = ms.port;
  fw_mark = ms.fw_mark;
  sched_name = ms.sched_name;
  flags = ms.flags;
  timeout = ms.timeout;
  netmask = ms.netmask;
  address_family = ms.address_family;
  pe_name = ms.pe_name;
  stats = ms.stats;
}

-- The numbers of connections and the statistics are left at their zero values.
unfoldable pub to_moby_destination : Destination → MobyDestination
to_moby_destination dst = record {
  address = clone_ip dst.address;
  port = dst.port;
  weight = dst.weight;
  connection_flags = dst.connection_flags;
  address_family = dst.address_family;
  upper_threshold = dst.upper_threshold;
  lower_threshold = dst.lower_threshold;
  active_connections = pos 0;
  inactive_connections = pos 0;
  stats = no_stats;
}

unfoldable pub from_moby_destination : MobyDestination → Destination
from_moby_destination md = record {
  address = clone_ip md.address;
  port = md.port;
  weight = md.weight;
  connection_flags = md.connection_flags;
  address_family = md.address_family;
  upper_threshold = md.upper_threshold;
  lower_threshold = md.lower_threshold;
  active_connections = md.active_connections;
  inactive_connections = md.inactive_connections;
  stats = md.stats;
}

module _ {K : Type 0} (ops : MobyHandle K) where
  unfoldable pub get_services : K → Result (List Service)
  get_services k = elim (ops.get_services k) [
    | err e ↦ err e
    | ok svcs ↦ ok (map from_moby_service svcs)
  ]

  unfoldable pub get_destinations : Service → K → Result (List Destination)
  get_destinations svc k = elim (ops.get_destinations (to_moby_service svc) k) [
    | err e ↦ err e
    | ok dsts ↦ ok (map from_moby_destination dsts)
  ]

  abbrev pub linux_handle : IpvsHandle K
  linux_handle = record {
    close = ops.close;
    new_service = λ svc k. ops.new_service (to_moby_service svc) k;
    update_service = λ svc k. ops.update_service (to_moby_service svc) k;
    del_service = λ svc k. ops.del_service (to_moby_service svc) k;
    get_services = get_services;
    new_destination =
        λ svc dst k. ops.new_destination (to_moby_service svc) (to_moby_destination dst) k;
    update_destination =
        λ svc dst k. ops.update_destination (to_moby_service svc) (to_moby_destination dst) k;
    del_destination =
        λ svc dst k. ops.del_destination (to_moby_service svc) (to_moby_destination dst) k;
    get_destinations = get_destinations;
    flush = ops.flush;
  }
