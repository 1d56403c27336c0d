-- ===== src/Health/Targets.antt =====
-- UpdateTargets, the outcomes of probes, and Stop, pkg/healthcheck/manager.go.
use fast_vip.Prelude.{
  ℕ, String, Bool, List, [], ◌∷◌, none, some, ◌≡◌, ◌∙◌, ◌==◌, ==_iff, string_eq, nat_eq, Dict,
  lookup, erase, is_some, lookup-erase, Every-empty, Option-cases, Bool-cases, inl, inr, if_intro,
  subst, MapRange, arith,
}
use fast_vip.Net.{Net}
use fast_vip.Config.{ServiceConfig, BackendConfig}
use fast_vip.Config.Defaults.{is_enabled}
use fast_vip.Health.{
  ServiceCheckConfig, BackendStatus, Check, HealthManager, new_manager, stop_backend,
  stop_service_backends, start_missing, record_result, handle_check_result, update_service,
  update_services, remove_services, remove_backends, update_targets, stop, cancel_all, was_enabled,
}
use fast_vip.Health.Tasks.{
  IsPaired, stop_found, start-IsPaired, record_result-token, put_status-IsPaired,
}

services-IsPaired :
    (svcs : Dict String ServiceCheckConfig) (m : HealthManager)
    → IsPaired m
    → IsPaired (record m { services = svcs })
services-IsPaired svcs m p = record {
  statuses_unique = p.statuses_unique;
  has_check = p.has_check;
  has_status = p.has_status;
  fresh = p.fresh;
}

stop_backend-IsPaired : (a : String) (m : HealthManager) → IsPaired m → IsPaired (stop_backend a m)
unfolding stop_backend
stop_backend-IsPaired a m p = elim (Option-cases (lookup a m.statuses)) [
  | inl e ↦ rw (e, stop_backend) p
  | inr (s, e) ↦ rw (e, stop_backend) (stop_found a s m e p)
]

stop_service_backends-IsPaired :
    (bs : List BackendConfig) (m : HealthManager)
    → IsPaired m
    → IsPaired (stop_service_backends bs m)
unfolding stop_service_backends
stop_service_backends-IsPaired [] m p = p
stop_service_backends-IsPaired (b ∷ bs) m p =
    stop_service_backends-IsPaired bs (stop_backend b.address m)
      (stop_backend-IsPaired b.address m p)

start_missing-IsPaired :
    (config : ServiceCheckConfig) (bs : List BackendConfig) (m : HealthManager)
    → IsPaired m
    → IsPaired (start_missing config bs m)
unfolding start_missing
start_missing-IsPaired config [] m p = p
start_missing-IsPaired config (b ∷ bs) m p =
    start_missing-IsPaired config bs _ (elim (Option-cases (lookup b.address m.statuses)) [
      | inl e ↦ rw e (start-IsPaired b.address config m e p)
      | inr (s, e) ↦ rw e p
    ])

module _ (net : Net) where
  update_service-IsPaired :
      (svc : ServiceConfig) (m : HealthManager) → IsPaired m → IsPaired (update_service net svc m)
  unfolding update_service
  update_service-IsPaired svc m p = elim (Bool-cases (is_enabled svc.health_check)) [
    | inl on ↦
        rw (on, update_service) (start_missing-IsPaired _ svc.backends _ (services-IsPaired _ m p))
    | inr off ↦ elim (Bool-cases (was_enabled (lookup svc.name m.services))) [
      | inl was ↦
          rw (off, was, update_service)
            (services-IsPaired _ _ (stop_service_backends-IsPaired svc.backends m p))
      | inr never ↦ rw (off, never, update_service) (services-IsPaired _ m p)
    ]
  ]

  update_services-IsPaired :
      (svcs : List ServiceConfig) (m : HealthManager)
      → IsPaired m
      → IsPaired (update_services net svcs m)
  unfolding update_services
  update_services-IsPaired [] m p = p
  update_services-IsPaired (svc ∷ svcs) m p =
      update_services-IsPaired svcs (update_service net svc m) (update_service-IsPaired svc m p)

remove_services-IsPaired :
    (names : Dict String Bool) (es : Dict String ServiceCheckConfig) (m : HealthManager)
    → IsPaired m
    → IsPaired (remove_services names es m)
unfolding remove_services
remove_services-IsPaired names [] m p = p
remove_services-IsPaired names ((k, c) ∷ es) m p = remove_services-IsPaired names es _ (
    if_intro IsPaired (is_some (lookup k names)) m (record m { services = erase k m.services }) p
      (services-IsPaired (erase k m.services) m p))

remove_backends-IsPaired :
    (addresses : Dict String Bool) (es : Dict String BackendStatus) (m : HealthManager)
    → IsPaired m
    → IsPaired (remove_backends addresses es m)
unfolding remove_backends
remove_backends-IsPaired addresses [] m p = p
remove_backends-IsPaired addresses ((a, s) ∷ es) m p = remove_backends-IsPaired addresses es _ (
    if_intro IsPaired (is_some (lookup a addresses)) m (stop_backend a m) p
      (stop_backend-IsPaired a m p))

pub update_targets-IsPaired :
    (net : Net) (rng : MapRange) (cfgs : List ServiceConfig) (m : HealthManager)
    → IsPaired m
    → IsPaired (update_targets net rng cfgs m)
unfolding update_targets
update_targets-IsPaired net rng cfgs m p =
    remove_backends-IsPaired _ _ _
      (remove_services-IsPaired _ _ _ (update_services-IsPaired net cfgs m p))

handle_check_result-IsPaired :
    (a : String) (failed : Bool) (config : ServiceCheckConfig) (m : HealthManager)
    → IsPaired m
    → IsPaired (handle_check_result a failed config m).0
unfolding handle_check_result
handle_check_result-IsPaired a failed config m p = elim (Option-cases (lookup a m.statuses)) [
  | inl e ↦ rw (e, handle_check_result) p
  | inr (s, e) ↦
      rw (e, handle_check_result)
        (put_status-IsPaired a s (record_result config failed s) m e
          (record_result-token config failed s) p)
]

cancel_all-none :
    (es : Dict String BackendStatus) (running : Dict ℕ Check) (t : ℕ)
    → lookup t running ≡ none
    → lookup t (cancel_all es running) ≡ none
unfolding cancel_all
cancel_all-none [] running t e = e
cancel_all-none ((k, x) ∷ es) running t e =
    cancel_all-none es (erase x.token running) t (ground (arith, lookup-erase x.token t running))

lookup-cancel_all :
    (es : Dict String BackendStatus) (running : Dict ℕ Check) (a : String) (s : BackendStatus)
    → lookup a es ≡ some s
    → lookup s.token (cancel_all es running) ≡ none
unfolding cancel_all lookup
lookup-cancel_all [] running a s e = absurd (ground arith)
lookup-cancel_all ((k, x) ∷ es) running a s e = elim (Bool-cases (k == a)) [
  | inl same ↦
      cancel_all-none es (erase x.token running) s.token
        (ground (arith, lookup-erase x.token s.token running, ==_iff x.token s.token))
  | inr other ↦ lookup-cancel_all es (erase x.token running) a s (ground arith)
]

-- After Stop no goroutine is left, if goroutines and tracked addresses were paired before.
pub stop_leaves_none :
    (rng : MapRange) (m : HealthManager)
    → IsPaired m
    → (t : ℕ) → lookup t (stop rng m).running ≡ none
unfolding stop
stop_leaves_none rng m p t = elim (Option-cases (lookup t m.running)) [
  | inl e ↦ cancel_all-none (rng.order String BackendStatus m.statuses) m.running t e
  | inr (c, e) ↦
      let (s, found, token) = p.has_status t c e in
      subst
        (λ (n : ℕ).
          lookup n (cancel_all (rng.order String BackendStatus m.statuses) m.running) ≡ none)
        token
        (lookup-cancel_all (rng.order String BackendStatus m.statuses) m.running c.address s
          (rng.lookup-order String BackendStatus c.address m.statuses p.statuses_unique ∙ found))
]

stop-IsPaired : (rng : MapRange) (m : HealthManager) → IsPaired m → IsPaired (stop rng m)
stop-IsPaired rng m p = record {
  statuses_unique = unfold stop in tt;
  has_check = λ a s found.
      absurd (Every-empty (λ (k : String) (v : BackendStatus). ⊥) a s (unfold stop in found));
  has_status = λ t c found. absurd (let e = stop_leaves_none rng m p t in ground arith);
  fresh = λ t c found. absurd (let e = stop_leaves_none rng m p t in ground arith);
}

pub data Event : Type 0 where
  targets : List ServiceConfig → Event
  result : String → Bool → ServiceCheckConfig → Event
  stops : Event

unfoldable pub step : Net → MapRange → Event → HealthManager → HealthManager
step net rng (targets cfgs) m = update_targets net rng cfgs m
step net rng (result a failed config) m = (handle_check_result a failed config m).0
step net rng stops m = stop rng m

unfoldable pub run : Net → MapRange → List Event → HealthManager → HealthManager
run net rng [] m = m
run net rng (e ∷ es) m = run net rng es (step net rng e m)

step-IsPaired :
    (net : Net) (rng : MapRange) (e : Event) (m : HealthManager)
    → IsPaired m
    → IsPaired (step net rng e m)
unfolding step
step-IsPaired net rng (targets cfgs) m p = update_targets-IsPaired net rng cfgs m p
step-IsPaired net rng (result a failed config) m p =
    handle_check_result-IsPaired a failed config m p
step-IsPaired net rng stops m p = stop-IsPaired rng m p

run_from-IsPaired :
    (net : Net) (rng : MapRange) (es : List Event) (m : HealthManager)
    → IsPaired m
    → IsPaired (run net rng es m)
unfolding run
run_from-IsPaired net rng [] m p = p
run_from-IsPaired net rng (e ∷ es) m p =
    run_from-IsPaired net rng es (step net rng e m) (step-IsPaired net rng e m p)

new_manager-IsPaired : IsPaired new_manager
unfolding lookup
new_manager-IsPaired = record {
  statuses_unique = tt;
  has_check = λ a s found. absurd (ground arith);
  has_status = λ t c found. absurd (ground arith);
  fresh = λ t c found. absurd (ground arith);
}

-- Whatever configurations are set, whatever probes report, and however often the manager is
-- stopped: each tracked address has one goroutine, which probes that address, and no other
-- goroutine runs.
pub run-IsPaired :
    (net : Net) (rng : MapRange) (es : List Event) → IsPaired (run net rng es new_manager)
run-IsPaired net rng es = run_from-IsPaired net rng es new_manager new_manager-IsPaired
