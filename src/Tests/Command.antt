-- ===== src/Tests/Command.antt =====
-- The theorem about the command `once` at a configuration with one service.
use fast_vip.Prelude.{◌↔◌, ℕ, none, some, ◌≡◌, ok, err, error, written_order}
use fast_vip.Snat.Fake as Rules
use fast_vip.Snat.Fake.{FakeManager}
use fast_vip.Lvs.Fake.{FakeHandle, new_ipvs_handle}
use fast_vip.Command.{LogViper, Host, once}
use fast_vip.Command.Once
use fast_vip.Command.Once.{Passes}
use fast_vip.Tests.Data.{small_net}
use fast_vip.Tests.Config.{good}
use fast_vip.Tests.Server.{outside}

abbrev host : Host FakeHandle FakeManager ℕ ℕ
host = record {
  platform = outside;
  build_loggers = λ cfg. none;
  open_ipvs = ok new_ipvs_handle;
  open_rules = ok Rules.new_manager;
  listeners = 0;
}

abbrev no_log_section : LogViper
no_log_section = record {
  read_in_config = some (error "no such file");
  unmarshal = err (error "empty");
}

once-Passes_example :
    ((once small_net written_order host no_log_section good).0 ≡ none)
    ↔ Passes small_net written_order host no_log_section good
once-Passes_example = Once.once-Passes small_net written_order host no_log_section good
