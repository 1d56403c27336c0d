-- ===== src/Config/Defaults.antt =====
-- The getters of pkg/config/config.go that put a default in the place of an unset value.
use fast_vip.Prelude.{
  ℤ, pos, String, Bool, true, none, some, if◌then◌else◌, ◌==◌, string_eq, le_zero, int_ltb,
}
use fast_vip.Net.{Net}
use fast_vip.Config.{LogConfig, TrafficLogConfig, GlobalConfig, HealthCheckConfig}

unfoldable pub get_level : LogConfig → String
get_level l = if l.level == "" then "info" else l.level

unfoldable pub get_home : LogConfig → String
get_home l = if l.home == "" then "./logs" else l.home

unfoldable pub get_max_size : LogConfig → ℤ
get_max_size l = if le_zero l.max_size then pos 50 else l.max_size

unfoldable pub get_max_backups : LogConfig → ℤ
get_max_backups l = if le_zero l.max_backups then pos 3 else l.max_backups

unfoldable pub get_max_age : LogConfig → ℤ
get_max_age l = l.max_age

unfoldable pub traffic_is_enabled : TrafficLogConfig → Bool
traffic_is_enabled t = elim t.enabled [ none ↦ true | some b ↦ b ]

-- Fifteen seconds by default, and never less than five.
unfoldable pub traffic_get_interval : Net → TrafficLogConfig → ℤ
traffic_get_interval net t =
    if t.interval == "" then pos 15_000_000_000 else elim (net.parse_duration t.interval) [
      | none ↦ pos 15_000_000_000
      | some d ↦ if int_ltb d (pos 5_000_000_000) then pos 5_000_000_000 else d
    ]

unfoldable pub is_cleanup_on_exit : GlobalConfig → Bool
is_cleanup_on_exit g = elim g.cleanup_on_exit [ none ↦ true | some b ↦ b ]

unfoldable pub is_metrics_enabled : GlobalConfig → Bool
is_metrics_enabled g = elim g.metrics_enabled [ none ↦ true | some b ↦ b ]

unfoldable pub get_metrics_path : GlobalConfig → String
get_metrics_path g = if g.metrics_path == "" then "/metrics" else g.metrics_path

unfoldable pub is_enabled : HealthCheckConfig → Bool
is_enabled h = elim h.enabled [ none ↦ true | some b ↦ b ]

unfoldable pub get_interval : Net → HealthCheckConfig → ℤ
get_interval net h =
    if h.interval == ""
    then pos 5_000_000_000
    else elim (net.parse_duration h.interval) [ none ↦ pos 5_000_000_000 | some d ↦ d ]

unfoldable pub get_timeout : Net → HealthCheckConfig → ℤ
get_timeout net h =
    if h.timeout == ""
    then pos 3_000_000_000
    else elim (net.parse_duration h.timeout) [ none ↦ pos 3_000_000_000 | some d ↦ d ]

unfoldable pub get_type : HealthCheckConfig → String
get_type h = if h.check_type == "" then "tcp" else h.check_type

unfoldable pub get_http_path : HealthCheckConfig → String
get_http_path h = if h.http_path == "" then "/" else h.http_path

unfoldable pub get_http_expected_status : HealthCheckConfig → ℤ
get_http_expected_status h =
    if le_zero h.http_expected_status then pos 200 else h.http_expected_status

unfoldable pub get_fail_count : HealthCheckConfig → ℤ
get_fail_count h = if le_zero h.fail_count then pos 3 else h.fail_count

unfoldable pub get_rise_count : HealthCheckConfig → ℤ
get_rise_count h = if le_zero h.rise_count then pos 2 else h.rise_count
