-- ===== src/Tests/Daemon.antt =====
-- The theorems about runs of the server at a start, a reload that fails, and a backend that goes down.
use fast_vip.Prelude.{
  ℕ, true, List, [], ◌∷◌, some, ◌≡◌, refl, ap, ◌∙◌, ok, arith, string_eq, lookup, insert,
  written_order, Dict, to_uint16, nat_eq,
}
use fast_vip.Config.{Config}
use fast_vip.Config.Defaults.{is_enabled}
use fast_vip.Config.Manager.{load, reload}
use fast_vip.Health.{
  HealthManager, is_healthy, handle_check_result, record_result, update_targets, update_services,
  update_service, start_missing, start_backend_check, service_check, checker_of, service_names,
  backend_addresses, add_addresses, remove_services, remove_backends,
}
use fast_vip.Lvs.Keys.{
  ServiceKey, service_key_eq, service_key_from_config, config_to_ipvs_service,
  config_to_ipvs_destination, protocol_from_string, netmask_from_family, address_family_from_ip,
  shorten,
}
use fast_vip.Lvs.Desired.{DesiredService, build_desired_state, desired_destinations, is_skipped}
use fast_vip.Lvs.Reconciler.Serves.{Serves}
use fast_vip.Lvs.Desired.Asked.{last_keyed}
use fast_vip.Snat.Fake.{FakeManager}
use fast_vip.Lvs.Fake.{FakeHandle}
use fast_vip.Server.{Server, services_of, begin, sync_http_services}
use fast_vip.Server.Events.{Event, reloads, on_probe, on_reload, run, step}
use fast_vip.Server.Reached.{over_fake, health-sync-apply}
use fast_vip.Server.Ready
use fast_vip.Server.Ready.{IsReady, ReloadsCanonical, after_run}
use fast_vip.Server.Valid.{current-begin}
use fast_vip.Tests.Data.{small_net, web}
use fast_vip.Tests.Config.{unreadable}
use fast_vip.Tests.Lvs.{from_ok, hosts, open_start, web_key}
use fast_vip.Tests.Server.{last_web, server, outside, strict}

abbrev events : List Event
events = reloads unreadable ∷ []

canonical : ReloadsCanonical small_net events
unfolding load
canonical = (λ cfg e. absurd (ground (arith, e)), tt)

ready : IsReady small_net server
ready = ((open_start, refl), hosts)

abbrev after : Server FakeHandle FakeManager ℕ ℕ
after = after_run small_net written_order outside events server

abbrev targeted : HealthManager
targeted = update_targets small_net written_order (web ∷ []) server.health_mgr

health_after : after.health_mgr ≡ targeted
unfolding run step on_reload reload load begin sync_http_services
health_after =
    health-sync-apply small_net written_order (over_fake small_net written_order outside) _

services_after : services_of after ≡ web ∷ []
unfolding run step on_reload reload load
services_after =
    ap Config.services
      (current-begin small_net written_order (over_fake small_net written_order outside) server)

goes_down : (handle_check_result "10.0.0.2:80" true strict targeted).1 ≡ true
unfolding handle_check_result record_result lookup update_targets update_services update_service
    start_missing start_backend_check service_check checker_of service_names backend_addresses
    add_addresses remove_services remove_backends insert is_enabled
goes_down = refl

wanted_down : Dict ServiceKey DesiredService
unfolding build_desired_state config_to_ipvs_service service_key_from_config desired_destinations
    is_skipped config_to_ipvs_destination protocol_from_string netmask_from_family
    address_family_from_ip shorten is_enabled to_uint16 insert handle_check_result record_result
    lookup is_healthy update_targets update_services update_service start_missing
    start_backend_check service_check checker_of service_names backend_addresses add_addresses
    remove_services remove_backends
wanted_down = from_ok (
    build_desired_state small_net
      (is_healthy (handle_check_result "10.0.0.2:80" true strict targeted).0) (web ∷ []) [])

built_down :
    build_desired_state small_net
      (is_healthy (handle_check_result "10.0.0.2:80" true strict targeted).0)
      (web ∷ [])
      []
    ≡ ok wanted_down
unfolding wanted_down
built_down = refl

last_after : last_keyed small_net web_key (services_of after) ≡ some web
last_after = ap (λ cfgs. last_keyed small_net web_key cfgs) services_after ∙ last_web

changed_after : (handle_check_result "10.0.0.2:80" true strict after.health_mgr).1 ≡ true
changed_after =
    ap (λ m. (handle_check_result "10.0.0.2:80" true strict m).1) health_after ∙ goes_down

built_after :
    build_desired_state small_net
      (is_healthy (handle_check_result "10.0.0.2:80" true strict after.health_mgr).0)
      (services_of after)
      []
    ≡ ok wanted_down
built_after =
    ap
      (λ m.
        build_desired_state small_net
          (is_healthy (handle_check_result "10.0.0.2:80" true strict m).0) (services_of after) [])
      health_after
    ∙ ap
        (λ cfgs.
          build_desired_state small_net
            (is_healthy (handle_check_result "10.0.0.2:80" true strict targeted).0) cfgs [])
        services_after
    ∙ built_down

run-on_probe-Serves_example :
    Serves small_net
      (is_healthy (handle_check_result "10.0.0.2:80" true strict after.health_mgr).0)
      (on_probe small_net written_order
        (over_fake small_net written_order outside)
        "10.0.0.2:80"
        true
        strict
        (after_run small_net written_order outside events server)).reconciler.manager
      web_key
      web
run-on_probe-Serves_example =
    Ready.run-on_probe-Serves small_net written_order outside events server "10.0.0.2:80" true
      strict wanted_down canonical ready changed_after built_after web_key web last_after
