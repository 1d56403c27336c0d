-- ===== src/Lvs/Keys.antt =====
-- pkg/lvs/types.go: the keys of services and destinations, and their conversion from the
-- configuration. The numbers of the system calls are those of Linux.
use fast_vip.Prelude.{
  ℕ, pos, String, List, none, some, ◌≡◌, ◌↔◌, Bool, true, ◌&&◌, ◌^^◌, arith, if◌then◌else◌, Eq,
  ◌==◌, ==_iff, nat_eq, string_eq, Result, ok, err, error, ◌>>=◌, or_error, to_uint16, is_some,
}
use fast_vip.Net.{Net}
use fast_vip.Config.{ServiceConfig, BackendConfig}
use fast_vip.Lvs.{Service, Destination, no_stats}

pub record ServiceKey : Type 0 where
  pub address : String
  pub port : ℕ
  pub protocol : ℕ

pub record DestinationKey : Type 0 where
  pub address : String
  pub port : ℕ

abbrev pub service_key_beq : ServiceKey → ServiceKey → Bool
service_key_beq a b = a.address == b.address && (a.port == b.port && a.protocol == b.protocol)

pub service_key_beq_iff : (a b : ServiceKey) → (service_key_beq a b ≡ true) ↔ (a ≡ b)
service_key_beq_iff a b =
    ground (arith, ==_iff a.address b.address, ==_iff a.port b.port, ==_iff a.protocol b.protocol)

instance abbrev pub service_key_eq : Eq ServiceKey
service_key_eq = record { same = service_key_beq; same_iff = service_key_beq_iff }

abbrev pub destination_key_beq : DestinationKey → DestinationKey → Bool
destination_key_beq a b = a.address == b.address && a.port == b.port

pub destination_key_beq_iff : (a b : DestinationKey) → (destination_key_beq a b ≡ true) ↔ (a ≡ b)
destination_key_beq_iff a b = ground (arith, ==_iff a.address b.address, ==_iff a.port b.port)

instance abbrev pub destination_key_eq : Eq DestinationKey
destination_key_eq = record { same = destination_key_beq; same_iff = destination_key_beq_iff }

abbrev pub ipproto_tcp : ℕ
ipproto_tcp = 6

abbrev pub ipproto_udp : ℕ
ipproto_udp = 17

abbrev pub af_inet : ℕ
af_inet = 2

abbrev pub af_inet6 : ℕ
af_inet6 = 10

abbrev pub connection_flag_masq : ℕ
connection_flag_masq = 0

unfoldable pub protocol_from_string : String → Result ℕ
protocol_from_string protocol =
    if protocol == "tcp"
    then ok ipproto_tcp
    else if protocol == "udp"
    then ok ipproto_udp
    else err (error "unsupported protocol")

unfoldable pub netmask_from_family : ℕ → ℕ
netmask_from_family family = if family == af_inet then 0xFFFFFFFF else 128

module _ (net : Net) where
  unfoldable pub protocol_to_string : ℕ → String
  protocol_to_string protocol =
      if protocol == ipproto_tcp
      then "tcp"
      else if protocol == ipproto_udp
      then "udp"
      else "unknown(" ^^ net.itoa protocol ^^ ")"

  -- ServiceKey.String and DestinationKey.String
  unfoldable pub service_key_string : ServiceKey → String
  service_key_string k = k.address ^^ ":" ^^ net.itoa k.port ^^ "/" ^^ protocol_to_string k.protocol

  unfoldable pub destination_key_string : DestinationKey → String
  destination_key_string k = k.address ^^ ":" ^^ net.itoa k.port

  unfoldable pub address_family_from_ip : List ℕ → ℕ
  address_family_from_ip ip = if is_some (net.to4 ip) then af_inet else af_inet6

  unfoldable pub service_key_from_config : ServiceConfig → Result ServiceKey
  service_key_from_config cfg = do
    (host, port_str) ← or_error (net.split_host_port cfg.listen) "invalid listen address"
    port ← or_error (net.atoi port_str) "invalid port"
    protocol ← protocol_from_string cfg.protocol
    ok (record { address = host; port = to_uint16 port; protocol = protocol })

  unfoldable pub service_key_from_ipvs : Service → ServiceKey
  service_key_from_ipvs svc = record {
    address = net.ip_string svc.address;
    port = svc.port;
    protocol = svc.protocol;
  }

  unfoldable pub destination_key_from_ipvs : Destination → DestinationKey
  destination_key_from_ipvs dst = record { address = net.ip_string dst.address; port = dst.port }

  -- `if ipv4 := ip.To4(); ipv4 != nil { ip = ipv4 }`
  unfoldable pub shorten : List ℕ → List ℕ
  shorten ip = elim (net.to4 ip) [ none ↦ ip | some ip4 ↦ ip4 ]

  unfoldable pub config_to_ipvs_service : ServiceConfig → Result Service
  config_to_ipvs_service cfg = do
    (host, port_str) ← or_error (net.split_host_port cfg.listen) "invalid listen address"
    port ← or_error (net.atoi port_str) "invalid port"
    parsed ← or_error (net.parse_ip host) "invalid IP address"
    let ip = shorten parsed
    protocol ← protocol_from_string cfg.protocol
    let family = address_family_from_ip ip
    ok (record {
      sched_name = cfg.scheduler;
      pe_name = "";
      address = ip;
      stats = no_stats;
      fw_mark = 0;
      flags = 0;
      timeout = 0;
      netmask = netmask_from_family family;
      protocol = protocol;
      port = to_uint16 port;
      address_family = family;
    })

  unfoldable pub config_to_ipvs_destination : BackendConfig → Result Destination
  config_to_ipvs_destination cfg = do
    (host, port_str) ← or_error (net.split_host_port cfg.address) "invalid backend address"
    port ← or_error (net.atoi port_str) "invalid port"
    parsed ← or_error (net.parse_ip host) "invalid IP address"
    let ip = shorten parsed
    ok (record {
      address = ip;
      stats = no_stats;
      weight = cfg.weight;
      active_connections = pos 0;
      inactive_connections = pos 0;
      connection_flags = connection_flag_masq;
      upper_threshold = 0;
      lower_threshold = 0;
      port = to_uint16 port;
      address_family = address_family_from_ip ip;
    })

-- A destination, and a service, under its own key.
abbrev pub KeyedBy : Net → DestinationKey → Destination → Type 0
KeyedBy net k d = destination_key_from_ipvs net d ≡ k

abbrev pub ServiceKeyedBy : Net → ServiceKey → Service → Type 0
ServiceKeyedBy net k s = service_key_from_ipvs net s ≡ k
