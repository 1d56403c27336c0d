-- ===== src/Tests/Data.antt =====
-- A small stand-in for the standard library, which knows the addresses 10.0.0.1 to 10.0.0.3, and a
-- configuration over it.
use fast_vip.Prelude.{
  ℕ, pos, String, true, List, [], ◌∷◌, Option, none, some, if◌then◌else◌, ◌==◌, string_eq, nat_eq,
  get_elem?,
}
use fast_vip.Net.{Net}
use fast_vip.Config.{ServiceConfig, BackendConfig, HealthCheckConfig}

abbrev pub split_text : String → Option (String × String)
split_text s =
    if s == "10.0.0.1:80"
    then some ("10.0.0.1", "80")
    else if s == "10.0.0.2:80"
    then some ("10.0.0.2", "80")
    else if s == "10.0.0.3:80"
    then some ("10.0.0.3", "80")
    else none

abbrev pub ip_of : String → Option (List ℕ)
ip_of s =
    if s == "10.0.0.1"
    then some (10 ∷ 0 ∷ 0 ∷ 1 ∷ [])
    else if s == "10.0.0.2"
    then some (10 ∷ 0 ∷ 0 ∷ 2 ∷ [])
    else if s == "10.0.0.3"
    then some (10 ∷ 0 ∷ 0 ∷ 3 ∷ [])
    else none

abbrev pub octet : Option ℕ → ℕ
octet none = 0
octet (some n) = n

abbrev pub ip_text : List ℕ → String
ip_text ip =
    if octet (get_elem? ip 3) == 1
    then "10.0.0.1"
    else if octet (get_elem? ip 3) == 2
    then "10.0.0.2"
    else "10.0.0.3"

abbrev pub small_net : Net
small_net = record {
  split_host_port = split_text;
  parse_ip = ip_of;
  to4 = λ ip. some ip;
  ip_string = ip_text;
  atoi = λ s. if s == "80" then some (pos 80) else none;
  itoa = λ n. if n == 80 then "80" else "0";
  parse_duration = λ s. if s == "10s" then some (pos 10_000_000_000) else none;
}

abbrev pub checked : HealthCheckConfig
checked = record {
  enabled = none;
  check_type = "";
  interval = "";
  timeout = "";
  http_path = "";
  fail_count = pos 0;
  rise_count = pos 0;
  http_expected_status = pos 0;
}

abbrev pub two_backends : List BackendConfig
two_backends =
    record { address = "10.0.0.2:80"; weight = pos 1 }
    ∷ record { address = "10.0.0.3:80"; weight = pos 2 }
    ∷ []

abbrev pub web : ServiceConfig
web = record {
  name = "web";
  mode = "";
  listen = "10.0.0.1:80";
  protocol = "tcp";
  scheduler = "wrr";
  snat_ip = "";
  backends = two_backends;
  health_check = checked;
  full_nat = true;
  traffic_log = some true;
  connection_pool = none;
}
