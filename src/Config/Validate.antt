-- ===== src/Config/Validate.antt =====
-- Validate of pkg/config/config.go. It writes the default protocol into the services, so it returns
-- the configuration. A set of seen texts is a map to true.
pub mod Valid
pub mod Sound
use fast_vip.Prelude.{
  ℤ, pos, String, Bool, true, false, ◌&&◌, ◌||◌, not, List, [], ◌∷◌, Option, none, some,
  if◌then◌else◌, ◌==◌, string_eq, le_zero, int_ltb, int_beq, Dict, lookup, insert, is_some, Result,
  ok, ◌>>=◌, ◌>>◌, guard, or_error, starts_with, ◌^^◌,
}
use fast_vip.Net.{Net}
use fast_vip.Config.{
  TrafficLogConfig, LogConfig, GlobalConfig, HealthCheckConfig, BackendConfig, ServiceConfig,
  Config,
}
use fast_vip.Config.Defaults.{get_level, is_enabled, get_type}

-- validLogLevels
unfoldable pub valid_log_level : String → Bool
valid_log_level s = s == "debug" || s == "info" || s == "warn" || s == "error"

-- validSchedulers
unfoldable pub valid_scheduler : String → Bool
valid_scheduler s = s == "rr" || s == "wrr" || s == "lc" || s == "wlc" || s == "dh" || s == "sh"

-- validProtocols
unfoldable pub valid_protocol : String → Bool
valid_protocol s = s == "tcp" || s == "udp"

unfoldable pub valid_port : String → Bool
valid_port s = not (s == "" || s == "0")

abbrev pub with_protocol : ServiceConfig → ServiceConfig
with_protocol svc = record svc { protocol = if svc.protocol == "" then "tcp" else svc.protocol }

unfoldable pub listen_key : ServiceConfig → String
listen_key svc = svc.listen ^^ "/" ^^ svc.protocol

unfoldable pub has_backends : List BackendConfig → Bool
has_backends [] = false
has_backends (b ∷ bs) = true

unfoldable pub has_services : List ServiceConfig → Bool
has_services [] = false
has_services (s ∷ ss) = true

module _ (net : Net) where
  unfoldable pub check_traffic : TrafficLogConfig → Result (Unit {0})
  check_traffic t = if t.interval == "" then ok tt else (do
    interval ←
        or_error (net.parse_duration t.interval) "global.log.traffic.interval: invalid duration"
    guard (not (int_ltb interval (pos 5_000_000_000)))
        "global.log.traffic.interval: minimum interval is 5s")

  unfoldable pub check_listen : ServiceConfig → Result (Unit {0})
  check_listen svc = do
    (host, port) ← or_error (net.split_host_port svc.listen) "invalid listen address"
    guard (is_some (net.parse_ip host)) "invalid listen IP"
    guard (valid_port port) "listen port must be a positive number"

  -- An unset duration takes its default, so it need not parse.
  unfoldable pub check_duration : String → String → Result (Unit {0})
  check_duration text d = guard (d == "" || is_some (net.parse_duration d)) text

  -- What only an HTTP check must meet.
  unfoldable pub check_http : HealthCheckConfig → Result (Unit {0})
  check_http h = do
    guard (h.http_path == "" || starts_with h.http_path "/") "http_path must start with '/'"
    guard
        (int_beq h.http_expected_status (pos 0)
          || not (
              int_ltb h.http_expected_status (pos 100) || int_ltb (pos 599) h.http_expected_status))
        "http_expected_status must be between 100 and 599"

  unfoldable pub check_health : HealthCheckConfig → Result (Unit {0})
  check_health h = if not (is_enabled h) then ok tt else (do
    check_duration "invalid health_check.interval" h.interval
    check_duration "invalid health_check.timeout" h.timeout
    guard (get_type h == "tcp" || get_type h == "http" || get_type h == "udp")
        "unsupported health_check.type"
    if get_type h == "http" then check_http h else ok tt)

  unfoldable pub check_snat : ServiceConfig → Result (Unit {0})
  check_snat svc = if svc.snat_ip == "" then ok tt else (do
    guard svc.full_nat "snat_ip requires full_nat to be enabled"
    guard (is_some (net.parse_ip svc.snat_ip)) "invalid snat_ip")

  -- The checks of one backend, after the addresses before it.
  unfoldable pub check_backend : Dict String Bool → BackendConfig → Result (Unit {0})
  check_backend seen b = do
    guard (not (b.address == "")) "address is required"
    (host, port) ← or_error (net.split_host_port b.address) "invalid address"
    guard (is_some (net.parse_ip host)) "invalid IP"
    guard (valid_port port) "port must be a positive number"
    guard (not (is_some (lookup b.address seen))) "duplicate address"
    guard (not (le_zero b.weight)) "weight must be a positive integer"

  unfoldable pub check_backends : Dict String Bool → List BackendConfig → Result (Unit {0})
  check_backends seen [] = ok tt
  check_backends seen (b ∷ rest) =
      check_backend seen b >>= λ _. check_backends (insert b.address true seen) rest

  -- The checks of one service after those before it; its protocol is filled in.
  unfoldable pub check_service :
      Dict String Bool → Dict String Bool → ServiceConfig → Result (Unit {0})
  check_service names listens svc = do
    guard (not (svc.name == "")) "name is required"
    guard (not (is_some (lookup svc.name names))) "duplicate service name"
    check_listen svc
    guard (valid_protocol svc.protocol) "unsupported protocol"
    guard (not (is_some (lookup (listen_key svc) listens))) "duplicate listen address"
    guard (valid_scheduler svc.scheduler) "unsupported scheduler"
    check_health svc.health_check
    check_snat svc
    guard (has_backends svc.backends) "at least one backend is required"
    check_backends [] svc.backends

  unfoldable pub check_services :
      Dict String Bool → Dict String Bool → List ServiceConfig → Result (List ServiceConfig)
  check_services names listens [] = ok []
  check_services names listens (svc ∷ rest) =
      let svc' = with_protocol svc in
      check_service names listens svc' >>= λ _.
      check_services (insert svc.name true names) (insert (listen_key svc') true listens) rest
      >>= λ rest'. ok (svc' ∷ rest')

  unfoldable pub validate : Config → Result Config
  validate cfg = do
    guard (valid_log_level (get_level cfg.global.log)) "global.log.level: unsupported level"
    check_traffic cfg.global.log.traffic
    guard (has_services cfg.services) "at least one service must be defined"
    svcs ← check_services [] [] cfg.services
    ok (record cfg { services = svcs })
