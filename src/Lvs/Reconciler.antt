-- ===== src/Lvs/Reconciler.antt =====
-- pkg/lvs/reconciler.go: a pass of the reconciler and its cleanup, over any IPVS handle and any rule
-- manager. A call holds the mutex throughout, so it is one step. Logging is left out; the counter of
-- reconcile errors of pkg/metrics is part of the state.
pub mod Services
pub mod Loops
pub mod Drops
pub mod Lookups
pub mod After
pub mod Pass
pub mod Converge
pub mod Serves
pub mod Again
pub mod Cleanup
use fast_vip.Prelude.{
  ℕ, ◌+◌, String, Bool, true, false, ◌||◌, List, [], ◌∷◌, ◌++◌, Option, none, some, if◌then◌else◌,
  ◌==◌, string_eq, int_eq, length, Dict, lookup, insert, erase, is_some, MapRange, Error, wrap, ok,
  err,
}
use fast_vip.Net.{Net}
use fast_vip.Config.{ServiceConfig}
use fast_vip.Snat.{SnatRule, ForwardRule, SnatManager}
use fast_vip.Lvs.{Service}
use fast_vip.Lvs.Keys.{ServiceKey, service_key_eq, destination_key_eq, service_key_from_ipvs}
use fast_vip.Lvs.Handle.{IpvsHandle}
use fast_vip.Lvs.Manager
use fast_vip.Lvs.Desired.{DesiredService, build_desired_state, desired_rules}
use fast_vip.Lvs.Destinations.{Failure, single, reconcile_destinations}

pub record Reconciler (H S : Type 0) : Type 0 where
  pub manager : H
  pub snat_mgr : S
  pub managed : Dict ServiceKey Bool
  -- fastVIP_reconcile_errors_total
  pub reconcile_errors : ℕ

-- A pass stops at its first error, or goes on and joins the errors of its parts.
pub data ReconcileError : Type 0 where
  stopped : Error → ReconcileError
  joined : List Failure → ReconcileError

-- `r.managed[key]` of a missing key is false.
unfoldable pub is_managed : ServiceKey → Dict ServiceKey Bool → Bool
is_managed key m = elim (lookup key m) [ none ↦ false | some b ↦ b ]

module _ (net : Net) where
  -- The services that fastVIP manages or that the configuration names, by key.
  unfoldable pub actual_map :
      Dict ServiceKey Bool
      → Dict ServiceKey DesiredService
      → List Service
      → Dict ServiceKey Service
      → Dict ServiceKey Service
  actual_map managed desired [] acc = acc
  actual_map managed desired (svc ∷ rest) acc =
      let key = service_key_from_ipvs net svc in
      actual_map managed desired rest
        (if is_managed key managed || is_some (lookup key desired) then insert key svc acc else acc)

abbrev pub add_failure : Option Failure → List Failure → List Failure
add_failure none errs = errs
add_failure (some e) errs = errs ++ e ∷ []

module _ {H S : Type 0} (net : Net) (rng : MapRange) (ops : IpvsHandle H) where
  -- Phase 4, and the state with it.
  unfoldable pub then_destinations :
      DesiredService → List Failure × Reconciler H S → List Failure × Reconciler H S
  then_destinations desired (errs, r) =
      let (e, h) =
        reconcile_destinations ops net rng desired.service desired.destinations r.manager in
      (add_failure e errs, record r { manager = h })

  -- After the create or the update of a service; an error leaves its destinations alone.
  unfoldable pub after_write :
      String
      → DesiredService
      → Option Error
      → List Failure × Reconciler H S
      → List Failure × Reconciler H S
  after_write text desired none s = then_destinations desired s
  after_write text desired (some e) (errs, r) = (errs ++ single (wrap text e) ∷ [], r)

  abbrev pub mark_managed : ServiceKey → Reconciler H S → Reconciler H S
  mark_managed key r = record r { managed = insert key true r.managed }

  -- A service is marked as managed once it was created, or when it is there already.
  unfoldable pub sync_service :
      Dict ServiceKey Service
      → ServiceKey
      → DesiredService
      → List Failure × Reconciler H S
      → List Failure × Reconciler H S
  unfolding after_write
  sync_service actual key desired (errs, r) = elim (lookup key actual) [
    | none ↦
        let (e, h) = Manager.create_service ops desired.service r.manager in
        let written = record r { manager = h } in
        after_write "create service" desired e
          (errs, if is_some e then written else mark_managed key written)
    | some old ↦
        let marked = mark_managed key r in
        if old.sched_name == desired.service.sched_name
        then then_destinations desired (errs, marked)
        else (let (e, h) = Manager.update_service ops desired.service r.manager in
            after_write "update service" desired e (errs, record marked { manager = h }))
  ]

  unfoldable pub sync_services :
      Dict ServiceKey Service
      → Dict ServiceKey DesiredService
      → List Failure × Reconciler H S
      → List Failure × Reconciler H S
  sync_services actual [] s = s
  sync_services actual ((key, desired) ∷ rest) s =
      sync_services actual rest (sync_service actual key desired s)

  unfoldable pub drop_service :
      Dict ServiceKey DesiredService
      → ServiceKey
      → Service
      → List Failure × Reconciler H S
      → List Failure × Reconciler H S
  drop_service desired key svc (errs, r) =
      if is_some (lookup key desired)
      then (errs, r)
      else (let (e, h) = Manager.delete_service ops svc r.manager in
          elim e [
            | none ↦ (errs, record r { manager = h; managed = erase key r.managed })
            | some x ↦ (errs ++ single (wrap "delete service" x) ∷ [], record r { manager = h })
          ])

  unfoldable pub drop_services :
      Dict ServiceKey DesiredService
      → Dict ServiceKey Service
      → List Failure × Reconciler H S
      → List Failure × Reconciler H S
  drop_services desired [] s = s
  drop_services desired ((key, svc) ∷ rest) s =
      drop_services desired rest (drop_service desired key svc s)

  -- The error of the first of the two rule managers' calls that fails.
  unfoldable pub apply_rules :
      SnatManager S → List SnatRule × List ForwardRule → S → Option Error × S
  apply_rules mgr (snats, forwards) s =
      let (e, s1) = mgr.reconcile snats s in
      elim e [
        | some x ↦ (some (wrap "snat rules" x), s1)
        | none ↦
            let (e2, s2) = mgr.reconcile_forward forwards s1 in
            (elim e2 [ none ↦ none | some x ↦ some (wrap "forward rules" x) ], s2)
      ]

  unfoldable pub reconcile_snat :
      SnatManager S → (String → Bool) → List ServiceConfig → S → Option Error × S
  reconcile_snat mgr is_healthy cfgs s = elim (desired_rules net is_healthy cfgs ([], [])) [
    | err e ↦ (some e, s)
    | ok rules ↦ apply_rules mgr rules s
  ]

  unfoldable pub then_snat :
      SnatManager S
      → (String → Bool)
      → List ServiceConfig
      → List Failure × Reconciler H S
      → List Failure × Reconciler H S
  then_snat mgr is_healthy cfgs (errs, r) =
      let (e, s) = reconcile_snat mgr is_healthy cfgs r.snat_mgr in
      (
        elim e [ none ↦ errs | some x ↦ errs ++ single (wrap "snat reconcile" x) ∷ [] ],
        record r { snat_mgr = s },
      )

  -- Every error of the pass counts once.
  abbrev pub conclude : List Failure × Reconciler H S → Option ReconcileError × Reconciler H S
  conclude ([], r) = (none, r)
  conclude (e ∷ errs, r) = (
    some (joined (e ∷ errs)),
    record r { reconcile_errors = r.reconcile_errors + length (e ∷ errs) },
  )

  unfoldable pub reconcile :
      SnatManager S
      → (String → Bool)
      → List ServiceConfig
      → Reconciler H S
      → Option ReconcileError × Reconciler H S
  reconcile mgr is_healthy cfgs r =
      let built = build_desired_state net is_healthy cfgs [] in
      let present = Manager.get_services ops r.manager in
      elim built [
        | err e ↦ (some (stopped (wrap "failed to build desired state" e)), r)
        | ok desired ↦ elim present [
          | err e ↦ (some (stopped (wrap "failed to get current IPVS services" e)), r)
          | ok svcs ↦
              let actual = actual_map net r.managed desired svcs [] in
              conclude (
                then_snat mgr is_healthy cfgs (
                  drop_services desired (rng.order ServiceKey Service actual)
                    (sync_services actual (rng.order ServiceKey DesiredService desired) ([], r))))
        ]
      ]
