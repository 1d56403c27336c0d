-- ===== src/Tests/Lvs.antt =====
-- The theorems about IPVS at a configuration with one service and a handle that is empty.
use fast_vip.Prelude.{
  ℕ, String, Bool, true, false, List, [], ◌∷◌, Option, none, some, ◌≡◌, refl, sym, ◌∙◌, ap, Result,
  ok, err, Dict, lookup, insert, All, written_order, to_uint16, is_some, if◌then◌else◌, ◌||◌,
  Every-empty,
}
use fast_vip.Config.Defaults.{is_enabled}
use fast_vip.Snat.Fake.{FakeManager, fake_manager, new_manager}
use fast_vip.Lvs.{Service, no_stats}
use fast_vip.Lvs.Keys.{
  ServiceKey, DestinationKey, KeyedBy, service_key_from_ipvs, service_key_eq, destination_key_eq,
  service_key_from_config, config_to_ipvs_service, config_to_ipvs_destination, protocol_from_string,
  netmask_from_family, address_family_from_ip, shorten,
}
use fast_vip.Snat.Fake as FakeRules
use fast_vip.Lvs.Fake.{FakeHandle, fake_handle, new_ipvs_handle, new_service}
use fast_vip.Lvs.Fake.Calls
use fast_vip.Lvs.Fake.Calls.{Call, new_services, del_services, flushes}
use fast_vip.Lvs.Destinations.{reconcile_destinations}
use fast_vip.Lvs.Destinations.Converge as DestConverge
use fast_vip.Lvs.Destinations.Diff.{Dests}
use fast_vip.Lvs.Destinations.Converge.{last_wanted, settle, settled}
use fast_vip.Lvs.Destinations.Loops.{at}
use fast_vip.Lvs.Reconciler.Services.{dests_or_empty}
use fast_vip.Lvs.Reconciler.Again
use fast_vip.Lvs.Reconciler.Cleanup
use fast_vip.Lvs.Reconciler.Cleanup.{cleanup}
use fast_vip.Lvs.Fake.WellFormed.{IsWellFormed, empty-IsWellFormed}
use fast_vip.Lvs.Desired.{
  DesiredService, build_desired_state, desired_destinations, is_skipped, service_rules,
  desired_rules,
}
use fast_vip.Lvs.Desired.Keyed.{HasCanonicalHost}
use fast_vip.Lvs.Reconciler.{Reconciler, reconcile, is_managed, reconcile_snat, apply_rules}
use fast_vip.Lvs.Reconciler.Converge
use fast_vip.Lvs.Reconciler.Converge.{IsServed}
use fast_vip.Tests.Data.{small_net, web, ip_of, ip_text}

abbrev pub start : Reconciler FakeHandle FakeManager
start = record {
  manager = new_ipvs_handle;
  snat_mgr = new_manager;
  managed = [];
  reconcile_errors = 0;
}

abbrev all_up : String → Bool
all_up a = true

abbrev pub from_ok : Result (Dict ServiceKey DesiredService) → Dict ServiceKey DesiredService
from_ok (ok d) = d
from_ok (err e) = []

abbrev blank : Service
blank = record {
  sched_name = "";
  pe_name = "";
  address = [];
  stats = no_stats;
  fw_mark = 0;
  flags = 0;
  timeout = 0;
  netmask = 0;
  protocol = 0;
  port = 0;
  address_family = 0;
}

abbrev pub or_web : Option DesiredService → DesiredService
or_web none = record { service = blank; destinations = []; config = web }
or_web (some d) = d

wanted : Dict ServiceKey DesiredService
unfolding build_desired_state config_to_ipvs_service service_key_from_config desired_destinations
    is_skipped config_to_ipvs_destination protocol_from_string netmask_from_family
    address_family_from_ip shorten is_enabled to_uint16 insert
wanted = from_ok (build_desired_state small_net all_up (web ∷ []) [])

built : build_desired_state small_net all_up (web ∷ []) [] ≡ ok wanted
unfolding wanted
built = refl

abbrev text_of : Option (List ℕ) → String
text_of none = ""
text_of (some ip) = ip_text ip

pub hosts : All (HasCanonicalHost small_net) (web ∷ [])
unfolding shorten
hosts = (
  λ host port ip p q.
      let e : ◌≡◌ {A = String} "10.0.0.1" host = cc in
      let f : ◌≡◌ {A = Option (List ℕ)} (some (10 ∷ 0 ∷ 0 ∷ 1 ∷ [])) (some ip) = ap ip_of e ∙ q in
      sym (ap text_of f) ∙ e,
  tt,
)

pub open_start : IsWellFormed small_net new_ipvs_handle
open_start = empty-IsWellFormed small_net false

abbrev pub web_key : ServiceKey
web_key = record { address = "10.0.0.1"; port = 80; protocol = 6 }

desired_web : DesiredService
unfolding wanted lookup
desired_web = or_web (lookup web_key wanted)

found : lookup web_key wanted ≡ some desired_web
unfolding desired_web
found = refl

reconcile-IsServed_example :
    IsServed small_net
      (reconcile small_net written_order
        (fake_handle small_net written_order)
        (fake_manager small_net written_order)
        all_up
        (web ∷ [])
        start).1.manager
      web_key
      desired_web
reconcile-IsServed_example =
    Converge.reconcile-IsServed small_net written_order (fake_manager small_net written_order)
      all_up (web ∷ []) start wanted open_start refl built hosts web_key desired_web found

-- A managed service that no configuration names, alone in the handle.
abbrev stale : Service
stale = record blank {
  address = 10 ∷ 0 ∷ 0 ∷ 3 ∷ [];
  protocol = 6;
  port = 80;
  sched_name = "rr";
  address_family = 2;
}

abbrev stale_key : ServiceKey
stale_key = record { address = "10.0.0.3"; port = 80; protocol = 6 }

stale_handle : FakeHandle
stale_handle = Calls.run small_net written_order (new_services stale ∷ []) new_ipvs_handle

stale_handle-IsWellFormed : IsWellFormed small_net stale_handle
unfolding stale_handle
stale_handle-IsWellFormed =
    Calls.run-IsWellFormed small_net written_order (new_services stale ∷ []) new_ipvs_handle
      open_start

stale_open : stale_handle.closed ≡ false
unfolding stale_handle Calls.run Calls.step new_service service_key_from_ipvs lookup insert
stale_open = refl

abbrev with_stale : Reconciler FakeHandle FakeManager
with_stale = record start { manager = stale_handle; managed = (stale_key, true) ∷ [] }

not_wanted : lookup stale_key wanted ≡ none
unfolding wanted lookup
not_wanted = refl

rules_done :
    (reconcile_snat small_net written_order
      (fake_handle small_net written_order)
      (fake_manager small_net written_order)
      all_up
      (web ∷ [])
      with_stale.snat_mgr).0
    ≡ none
unfolding reconcile_snat apply_rules desired_rules service_rules FakeRules.reconcile
    FakeRules.reconcile_forward is_skipped is_enabled
rules_done = refl

reconcile_success_example :
    (reconcile small_net written_order
      (fake_handle small_net written_order)
      (fake_manager small_net written_order)
      all_up
      (web ∷ [])
      with_stale).0
    ≡ none
reconcile_success_example =
    Converge.reconcile_success small_net written_order (fake_manager small_net written_order) all_up
      (web ∷ []) with_stale wanted stale_handle-IsWellFormed stale_open built hosts rules_done

reconcile-others_example :
    let h =
      (reconcile small_net written_order
        (fake_handle small_net written_order)
        (fake_manager small_net written_order)
        all_up
        (web ∷ [])
        with_stale).1.manager in
    (lookup stale_key h.services ≡ (
      if is_managed stale_key with_stale.managed
      then none
      else lookup stale_key stale_handle.services))
    × (lookup stale_key h.destinations ≡ (
        if is_managed stale_key with_stale.managed
        then none
        else lookup stale_key stale_handle.destinations))
reconcile-others_example =
    Converge.reconcile-others small_net written_order (fake_manager small_net written_order) all_up
      (web ∷ []) with_stale wanted stale_handle-IsWellFormed stale_open built hosts stale_key
      not_wanted

reconcile-is_managed_example :
    is_managed web_key
      (reconcile small_net written_order
        (fake_handle small_net written_order)
        (fake_manager small_net written_order)
        all_up
        (web ∷ [])
        with_stale).1.managed
    ≡ (is_some (lookup web_key wanted)
        || (if is_some (lookup web_key stale_handle.services)
            then false
            else is_managed web_key with_stale.managed))
reconcile-is_managed_example =
    Converge.reconcile-is_managed small_net written_order (fake_manager small_net written_order)
      all_up (web ∷ []) with_stale wanted stale_handle-IsWellFormed stale_open built hosts web_key

reconcile_twice_example :
    let h1 =
      (reconcile small_net written_order
        (fake_handle small_net written_order)
        (fake_manager small_net written_order)
        all_up
        (web ∷ [])
        with_stale).1 in
    let h2 =
      (reconcile small_net written_order
        (fake_handle small_net written_order)
        (fake_manager small_net written_order)
        all_up
        (web ∷ [])
        h1).1 in
    (lookup web_key h2.manager.services ≡ lookup web_key h1.manager.services)
    × ((j : DestinationKey)
        → lookup j (dests_or_empty (lookup web_key h2.manager.destinations))
          ≡ lookup j (dests_or_empty (lookup web_key h1.manager.destinations)))
reconcile_twice_example =
    Again.reconcile_twice small_net written_order (fake_manager small_net written_order) all_up
      (web ∷ []) with_stale wanted stale_handle-IsWellFormed stale_open built hosts web_key

run-IsWellFormed_example : IsWellFormed small_net (
    Calls.run small_net written_order
      (new_services stale ∷ del_services stale ∷ flushes ∷ [])
      stale_handle)
run-IsWellFormed_example =
    Calls.run-IsWellFormed small_net written_order
      (new_services stale ∷ del_services stale ∷ flushes ∷ []) stale_handle
      stale_handle-IsWellFormed

stale_found : lookup (service_key_from_ipvs small_net stale) stale_handle.destinations ≡ some []
unfolding stale_handle Calls.run Calls.step new_service service_key_from_ipvs lookup insert
stale_found = refl

reconcile_destinations-fake_example :
    reconcile_destinations
      (fake_handle small_net written_order)
      small_net
      written_order
      stale
      desired_web.destinations
      stale_handle
    ≡ (
      none,
      at small_net written_order stale stale_handle
          (settle small_net written_order desired_web.destinations []),
    )
reconcile_destinations-fake_example =
    DestConverge.reconcile_destinations-fake small_net written_order stale desired_web.destinations
      stale_handle [] stale_found tt (Every-empty (KeyedBy small_net))

reconcile_destinations-settled_example :
    let done =
      reconcile_destinations
        (fake_handle small_net written_order)
        small_net
        written_order
        stale
        desired_web.destinations
        stale_handle in
    (done.0 ≡ none)
    × ((after : Dests) × (lookup (service_key_from_ipvs small_net stale) done.1.destinations
          ≡ some after)
        × ((j : DestinationKey)
            → lookup j after
              ≡ settled (last_wanted small_net j desired_web.destinations) (lookup j [])))
reconcile_destinations-settled_example =
    DestConverge.reconcile_destinations-settled small_net written_order stale
      desired_web.destinations stale_handle [] stale_found tt (Every-empty (KeyedBy small_net))

cleanup_exact_example :
    let result = cleanup (fake_handle small_net written_order) small_net written_order with_stale in
    (result.0 ≡ none)
    × ((k : ServiceKey)
        → (lookup k result.1.managed ≡ none)
          × (lookup k result.1.manager.services ≡ (
              if is_some (lookup k with_stale.managed)
              then none
              else lookup k stale_handle.services))
          × (lookup k result.1.manager.destinations ≡ (
              if is_some (lookup k with_stale.managed)
              then none
              else lookup k stale_handle.destinations)))
cleanup_exact_example =
    Cleanup.cleanup_exact small_net written_order with_stale stale_handle-IsWellFormed
      (unfold lookup in (refl, tt))
