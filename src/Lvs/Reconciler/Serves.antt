-- ===== src/Lvs/Reconciler/Serves.antt =====
-- The in-memory handle against the configuration and the health of the backends, without the desired state
-- that pkg/lvs/reconciler.go builds on the way.
use fast_vip.Prelude.{String, Bool, true, List, [], some, ◌≡◌, ap, ◌∙◌, lookup, is_some, ok}
use fast_vip.Net.{Net}
use fast_vip.Config.{ServiceConfig}
use fast_vip.Lvs.Keys.{ServiceKey, DestinationKey, service_key_eq, destination_key_eq}
use fast_vip.Lvs.Desired.{DesiredService, build_desired_state}
use fast_vip.Lvs.Desired.Asked.{weight_of, asked_weight, last_keyed, built-asked}
use fast_vip.Lvs.Fake.{FakeHandle}
use fast_vip.Lvs.Reconciler.Services.{dests_or_empty}
use fast_vip.Lvs.Reconciler.Loops.{Desired}
use fast_vip.Lvs.Reconciler.Converge.{IsServed, sched_of}

-- The handle has under the key a service with the scheduler of the configuration, and just the
-- destinations of its backends that are used, each with the weight of the backend.
pub record Serves (net : Net) (healthy : String → Bool) (h : FakeHandle) (k : ServiceKey)
    (cfg : ServiceConfig) : Type 0 where
  pub scheduler : sched_of (lookup k h.services) ≡ some cfg.scheduler
  pub has_destinations : is_some (lookup k h.destinations) ≡ true
  pub weights :
      (j : DestinationKey)
      → weight_of (lookup j (dests_or_empty (lookup k h.destinations)))
        ≡ asked_weight net healthy cfg cfg.backends j

pub served-Serves :
    (net : Net) (healthy : String → Bool) (cfgs : List ServiceConfig) (desired : Desired)
    (h : FakeHandle) (k : ServiceKey) (cfg : ServiceConfig)
    → build_desired_state net healthy cfgs [] ≡ ok desired
    → last_keyed net k cfgs ≡ some cfg
    → ((d : DesiredService) → lookup k desired ≡ some d → IsServed net h k d)
    → Serves net healthy h k cfg
served-Serves net healthy cfgs desired h k cfg built last served =
    let (d, found, sched, weights) = built-asked net healthy cfgs desired k cfg built last in
    let s = served d found in
    record {
      scheduler = s.scheduler ∙ ap some sched;
      has_destinations = s.has_destinations;
      weights = λ j. s.weights j ∙ weights j;
    }
