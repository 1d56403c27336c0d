-- ===== src/Tests/Server.antt =====
-- The theorems about the server at a configuration with one service, one backend of which goes down.
use fast_vip.Prelude.{
  ◌↔◌, ◌⊎◌, Result, ℕ, String, true, [], ◌∷◌, ◌++◌, none, some, ◌≡◌, ◌≢◌, refl, pos, ok, string_eq,
  lookup, insert, written_order, inl, Dict, Error, to_uint16,
}
use fast_vip.Config.Defaults.{is_enabled}
use fast_vip.Config.Manager.{load, reload}
use fast_vip.Metrics.{set_fake_backend_active}
use fast_vip.Health.{
  new_manager, BackendStatus, ServiceCheckConfig, disabled, is_healthy, handle_check_result,
  record_result, update_targets, update_services, update_service, start_missing,
  start_backend_check, service_check, checker_of, service_names, backend_addresses, add_addresses,
  remove_services, remove_backends,
}
use fast_vip.Snat.Fake.{FakeManager, fake_manager}
use fast_vip.Lvs.Keys.{
  ServiceKey, service_key_eq, service_key_from_config, config_to_ipvs_service,
  config_to_ipvs_destination, protocol_from_string, netmask_from_family, address_family_from_ip,
  shorten,
}
use fast_vip.Lvs.Desired.{DesiredService, build_desired_state, desired_destinations, is_skipped}
use fast_vip.Lvs.Fake.{FakeHandle, fake_handle}
use fast_vip.Lvs.Reconciler.Serves.{Serves}
use fast_vip.Lvs.Desired.Asked.{last_keyed}
use fast_vip.Http.Manager.{new_http_manager}
use fast_vip.Admin.{handle_reload}
use fast_vip.Admin.Answers
use fast_vip.Server.{Platform, Server, new_server, begin}
use fast_vip.Server.Events.{reloads, config_changes, probes, ticks, on_probe, on_config_change, run}
use fast_vip.Server.Gauges
use fast_vip.Server.Gauges.{ShowsHealth}
use fast_vip.Server.Reached
use fast_vip.Server.Reached.{over_fake}
use fast_vip.Server.Valid
use fast_vip.Server.Valid.{HasValidConfig}
use fast_vip.Server.KernelParams.{log_preflight, passed}
use fast_vip.Server.KernelParams.Preflight
use fast_vip.Server.KernelParams.Preflight.{value_of}
use fast_vip.Tests.Data.{small_net, web}
use fast_vip.Tests.Config.{first, loaded, good, unreadable}
use fast_vip.Tests.Lvs.{start, from_ok, hosts, open_start, web_key}
use fast_vip.Tests.Proxy.{listening}

abbrev pub outside : Platform FakeHandle FakeManager ℕ ℕ
outside = record {
  ipvs = fake_handle small_net written_order;
  rules = fake_manager small_net written_order;
  listening = listening;
  network = 0;
  ipvs_is_fake = true;
  snat_is_fake = true;
}

abbrev pub strict : ServiceCheckConfig
strict = record disabled { fail_count = pos 1; rise_count = pos 1; enabled = true }

abbrev up : BackendStatus
up = record {
  address = "10.0.0.2:80";
  consecutive_fails = 0;
  consecutive_ok = 0;
  healthy = true;
  token = 0;
}

abbrev pub server : Server FakeHandle FakeManager ℕ ℕ
server = record {
  config_mgr = record first { signalled = true };
  reconciler = start;
  health_mgr = record {
    services = [];
    statuses = ("10.0.0.2:80", up) ∷ [];
    running = [];
    next_token = 1;
  };
  http_mgr = new_http_manager;
  listeners = 0;
  admin_server = none;
  collector = none;
  metrics = [];
}

goes_down : (handle_check_result "10.0.0.2:80" true strict server.health_mgr).1 ≡ true
unfolding handle_check_result record_result lookup
goes_down = refl

on_probe-ShowsHealth_example :
    ShowsHealth (on_probe small_net written_order outside "10.0.0.2:80" true strict server)
on_probe-ShowsHealth_example =
    Gauges.on_probe-ShowsHealth small_net written_order outside "10.0.0.2:80" true strict server
      (inl goes_down)

wanted_changed : Dict ServiceKey DesiredService
unfolding build_desired_state config_to_ipvs_service service_key_from_config desired_destinations
    is_skipped config_to_ipvs_destination protocol_from_string netmask_from_family
    address_family_from_ip shorten is_enabled to_uint16 insert lookup is_healthy update_targets
    update_services update_service start_missing start_backend_check service_check checker_of
    service_names backend_addresses add_addresses remove_services remove_backends
wanted_changed = from_ok (
    build_desired_state small_net
      (is_healthy (update_targets small_net written_order (web ∷ []) server.health_mgr)) (web ∷ [])
      [])

built_changed :
    build_desired_state small_net
      (is_healthy (update_targets small_net written_order (web ∷ []) server.health_mgr))
      (web ∷ [])
      []
    ≡ ok wanted_changed
unfolding wanted_changed
built_changed = refl

pub last_web : last_keyed small_net web_key (web ∷ []) ≡ some web
unfolding last_keyed service_key_from_config protocol_from_string to_uint16
last_web = refl

on_config_change-Serves_example :
    Serves small_net
      (is_healthy (update_targets small_net written_order (web ∷ []) server.health_mgr))
      (on_config_change small_net written_order
        (over_fake small_net written_order outside)
        server).reconciler.manager
      web_key
      web
on_config_change-Serves_example =
    Reached.on_config_change-Serves small_net written_order outside server open_start refl hosts
      wanted_changed refl built_changed web_key web last_web

abbrev made : Server FakeHandle FakeManager ℕ ℕ
made = record server {
  config_mgr = first;
  health_mgr = new_manager;
  metrics = set_fake_backend_active "ipvs" true ++ set_fake_backend_active "snat" true;
}

made-new_server :
    new_server small_net written_order outside good start.manager start.snat_mgr 0 ≡ ok made
unfolding new_server
made-new_server = rw (loaded, new_server) refl

begin-run-HasValidConfig_example : HasValidConfig small_net (
    run small_net written_order outside
      (reloads unreadable
        ∷ probes "10.0.0.2:80" true strict
        ∷ reloads good
        ∷ config_changes
        ∷ ticks
        ∷ [])
      (begin small_net written_order outside made).1)
begin-run-HasValidConfig_example =
    Valid.begin-run-HasValidConfig small_net written_order outside good start.manager start.snat_mgr
      0 made
      (reloads unreadable
        ∷ probes "10.0.0.2:80" true strict
        ∷ reloads good
        ∷ config_changes
        ∷ ticks
        ∷ [])
      made-new_server

abbrev quoted : String → String
quoted s = s

abbrev message : Error → String
message e = "invalid"

handle_reload-load_example :
    let answered = handle_reload quoted message "POST" (some (reload small_net unreadable)) first in
    (answered.0.status ≡ 200
      → (load small_net unreadable ≡ ok answered.1.current) × (answered.1.signalled ≡ true))
    × (answered.0.status ≢ 200 → answered.1 ≡ first)
handle_reload-load_example =
    Answers.handle_reload-load small_net quoted message "POST" unreadable first

-- A kernel in which every parameter reads "1".
abbrev ones : String → Result String
ones path = ok "1"

abbrev kept : String → String
kept s = s

log_preflight-passed_example : (log_preflight written_order ones kept true true ≡ passed ∷ []) ↔ (
    (true ≡ true)
    × (true ≡ true)
    × (value_of written_order ones kept "net.ipv4.ip_forward" ≡ some "1")
    × (value_of written_order ones kept "net.ipv4.vs.conntrack" ≡ some "1")
    × ((value_of written_order ones kept "net.ipv4.conf.all.rp_filter" ≡ some "0")
        ⊎ (value_of written_order ones kept "net.ipv4.conf.all.rp_filter" ≡ some "2"))
    × ((value_of written_order ones kept "net.ipv4.conf.default.rp_filter" ≡ some "0")
        ⊎ (value_of written_order ones kept "net.ipv4.conf.default.rp_filter" ≡ some "2")))
log_preflight-passed_example = Preflight.log_preflight-passed written_order ones kept true true
