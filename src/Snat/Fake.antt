-- ===== src/Snat/Fake.antt =====
-- pkg/snat/manager_fake.go: the in-memory rule manager. Both maps are ranged over in the order
-- that the runtime chooses.
pub mod Exact
use fast_vip.Prelude.{
  String, List, [], ◌∷◌, Option, none, some, if◌then◌else◌, ◌==◌, string_eq, Dict, lookup, insert,
  erase, is_some, MapRange, Error,
}
use fast_vip.Net.{Net}
use fast_vip.Snat.{SnatRule, ForwardRule, snat_key, forward_key, SnatManager}

pub record FakeManager : Type 0 where
  pub managed : Dict String SnatRule
  pub managed_forward : Dict String ForwardRule

-- NewManager
abbrev pub new_manager : FakeManager
new_manager = record { managed = []; managed_forward = [] }

-- `for key := range managed { if !desired[key] { delete(managed, key) } }`
module _ {V : Type 0} where
  unfoldable pub remove_stale : Dict String V → Dict String V → Dict String V → Dict String V
  remove_stale desired [] managed = managed
  remove_stale desired ((k, v) ∷ rest) managed =
      remove_stale desired rest (if is_some (lookup k desired) then managed else erase k managed)

-- A rule that is there with the same address is kept.
unfoldable pub add_rule : String → SnatRule → Dict String SnatRule → Dict String SnatRule
add_rule key rule managed = elim (lookup key managed) [
  | none ↦ insert key rule managed
  | some existing ↦ if existing.snat_ip == rule.snat_ip then managed else insert key rule managed
]

unfoldable pub add_rules : Dict String SnatRule → Dict String SnatRule → Dict String SnatRule
add_rules [] managed = managed
add_rules ((k, rule) ∷ rest) managed = add_rules rest (add_rule k rule managed)

unfoldable pub add_forward_rules :
    Dict String ForwardRule → Dict String ForwardRule → Dict String ForwardRule
add_forward_rules [] managed = managed
add_forward_rules ((k, rule) ∷ rest) managed =
    add_forward_rules rest (if is_some (lookup k managed) then managed else insert k rule managed)

module _ (net : Net) where
  -- The rules by their keys; of two with one key the later is kept.
  unfoldable pub desired_map : List SnatRule → Dict String SnatRule → Dict String SnatRule
  desired_map [] m = m
  desired_map (r ∷ rest) m = desired_map rest (insert (snat_key net r) r m)

  unfoldable pub desired_forward_map :
      List ForwardRule → Dict String ForwardRule → Dict String ForwardRule
  desired_forward_map [] m = m
  desired_forward_map (r ∷ rest) m = desired_forward_map rest (insert (forward_key net r) r m)

module _ (net : Net) (rng : MapRange) where
  unfoldable pub reconcile : List SnatRule → FakeManager → Option Error × FakeManager
  reconcile rules m =
      let desired = desired_map net rules [] in
      let kept = remove_stale desired (rng.order String SnatRule m.managed) m.managed in
      (none, record m { managed = add_rules (rng.order String SnatRule desired) kept })

  unfoldable pub reconcile_forward : List ForwardRule → FakeManager → Option Error × FakeManager
  reconcile_forward rules m =
      let desired = desired_forward_map net rules [] in
      let kept =
        remove_stale desired (rng.order String ForwardRule m.managed_forward) m.managed_forward in
      (
        none,
        record m {
          managed_forward = add_forward_rules (rng.order String ForwardRule desired) kept;
        },
      )

  unfoldable pub cleanup : FakeManager → Option Error × FakeManager
  cleanup m = (none, record { managed = []; managed_forward = [] })

  abbrev pub fake_manager : SnatManager FakeManager
  fake_manager = record {
    reconcile = reconcile;
    reconcile_forward = reconcile_forward;
    cleanup = cleanup;
  }
