-- ===== src/Config.antt =====
-- The configuration types of pkg/config/config.go. A `*bool` is an `Option Bool`, an `int` and a
-- `time.Duration` (in nanoseconds) an integer.
pub mod Defaults
pub mod Validate
pub mod Manager
use fast_vip.Prelude.{ℤ, String, Bool, Option, List}

pub record TrafficLogConfig : Type 0 where
  pub enabled : Option Bool
  pub interval : String

pub record LogConfig : Type 0 where
  pub traffic : TrafficLogConfig
  pub level : String
  pub home : String
  pub max_size : ℤ
  pub max_backups : ℤ
  pub max_age : ℤ
  pub compress : Bool

pub record GlobalConfig : Type 0 where
  pub cleanup_on_exit : Option Bool
  pub metrics_enabled : Option Bool
  pub admin_address : String
  pub metrics_path : String
  pub log : LogConfig

pub record ConnectionPoolConfig : Type 0 where
  pub max_idle : ℤ
  pub idle_timeout : ℤ
  pub cleanup_interval : ℤ

pub record HealthCheckConfig : Type 0 where
  pub enabled : Option Bool
  pub check_type : String
  pub interval : String
  pub timeout : String
  pub http_path : String
  pub fail_count : ℤ
  pub rise_count : ℤ
  pub http_expected_status : ℤ

pub record BackendConfig : Type 0 where
  pub address : String
  pub weight : ℤ

pub record ServiceConfig : Type 0 where
  pub name : String
  pub mode : String
  pub listen : String
  pub protocol : String
  pub scheduler : String
  pub snat_ip : String
  pub backends : List BackendConfig
  pub health_check : HealthCheckConfig
  pub full_nat : Bool
  pub traffic_log : Option Bool
  pub connection_pool : Option ConnectionPoolConfig

pub record Config : Type 0 where
  pub services : List ServiceConfig
  pub global : GlobalConfig
