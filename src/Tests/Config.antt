-- ===== src/Tests/Config.antt =====
-- The theorems about configurations at one with a single service.
use fast_vip.Prelude.{
  false, [], ◌∷◌, none, some, ◌≡◌, refl, map, pos, ok, err, error, string_eq, lookup, insert,
}
use fast_vip.Config.{Config, GlobalConfig}
use fast_vip.Config.Defaults.{is_enabled, get_level, get_type}
use fast_vip.Config.Validate.{
  validate, valid_log_level, valid_scheduler, valid_protocol, valid_port, has_backends,
  has_services, listen_key, with_protocol, check_traffic, check_listen, check_duration,
  check_health, check_snat, check_backend, check_backends, check_service, check_services,
}
use fast_vip.Config.Validate.Sound
use fast_vip.Config.Validate.Valid.{IsValidConfig}
use fast_vip.Config.Manager
use fast_vip.Config.Manager.{Viper, ConfigManager, load, new_manager, reload_all}
use fast_vip.Tests.Data.{small_net, web}

abbrev defaults : GlobalConfig
defaults = record {
  cleanup_on_exit = none;
  metrics_enabled = none;
  admin_address = "";
  metrics_path = "";
  log = record {
    traffic = record { enabled = none; interval = "10s" };
    level = "";
    home = "";
    max_size = pos 0;
    max_backups = pos 0;
    max_age = pos 0;
    compress = false;
  };
}

abbrev one_service : Config
one_service = record { services = record web { protocol = "" } ∷ []; global = defaults }

abbrev pub filled : Config
filled = record { services = web ∷ []; global = defaults }

accepted : validate small_net one_service ≡ ok filled
unfolding validate check_services check_service check_traffic check_listen check_health
    check_duration check_snat check_backends check_backend get_level get_type is_enabled
    valid_log_level valid_scheduler valid_protocol valid_port has_backends has_services listen_key
    lookup insert
accepted = refl

validate-IsValid_example :
    (filled.services ≡ map with_protocol one_service.services)
    × (filled.global ≡ one_service.global)
    × IsValidConfig small_net filled
validate-IsValid_example = Sound.validate-IsValid small_net one_service filled accepted

abbrev pub good : Viper
good = record { read_in_config = none; unmarshal = ok one_service }

abbrev pub unreadable : Viper
unreadable = record {
  read_in_config = some (error "no such file");
  unmarshal = err (error "empty");
}

abbrev pub first : ConfigManager
first = record { current = filled; signalled = false; on_reload = false; reloads = 0 }

pub loaded : new_manager small_net good ≡ ok first
unfolding new_manager load validate check_services check_service check_traffic check_listen
    check_health check_duration check_snat check_backends check_backend get_level get_type
    is_enabled valid_log_level valid_scheduler valid_protocol valid_port has_backends has_services
    listen_key lookup insert
loaded = refl

current-IsValid_example :
    IsValidConfig small_net (reload_all small_net (unreadable ∷ good ∷ []) first).current
current-IsValid_example =
    Manager.current-IsValid small_net good first (unreadable ∷ good ∷ []) loaded
