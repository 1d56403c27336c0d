-- ===== src/Snat/Linux.antt =====
-- pkg/snat/manager_linux.go: the rule manager over iptables. The library that runs iptables is a record
-- of operations over any state `T` of the kernel's tables.
pub mod Chains
pub mod Stats
pub mod Same
pub mod Leak
use fast_vip.Prelude.{
  ℕ, String, Bool, true, false, not, List, [], ◌∷◌, ◌++◌, Option, none, some, if◌then◌else◌, ◌==◌,
  string_eq, Dict, lookup, insert, erase, is_some, MapRange, Error, Result, wrap_error,
}
use fast_vip.Net.{Net}
use fast_vip.Snat.{SnatRule, ForwardRule, SnatManager}
use fast_vip.Snat.Fake.{desired_map, desired_forward_map}

pub record Iptables (T : Type 0) : Type 0 where
  pub chain_exists : String → String → T → Result Bool
  pub new_chain : String → String → T → Option Error × T
  pub exists : String → String → List String → T → Result Bool
  pub insert_at : String → String → ℕ → List String → T → Option Error × T
  pub append_unique : String → String → List String → T → Option Error × T
  pub delete_if_exists : String → String → List String → T → Option Error × T
  pub clear_chain : String → String → T → Option Error × T
  pub delete_chain : String → String → T → Option Error × T
  pub stats : String → String → T → Result (List (List String))

abbrev pub nat_table : String
nat_table = "nat"

abbrev pub filter_table : String
filter_table = "filter"

abbrev pub snat_chain : String
snat_chain = "EZLB-SNAT"

abbrev pub forward_chain : String
forward_chain = "EZLB-FORWARD"

pub record LinuxManager (T : Type 0) : Type 0 where
  pub ipt : T
  pub managed : Dict String SnatRule
  pub managed_forward : Dict String ForwardRule

-- A rule without an address masquerades.
unfoldable pub build_rule_spec : Net → SnatRule → List String
build_rule_spec net rule =
    ("-d" ∷ rule.backend_ip ∷ "-p" ∷ rule.protocol ∷ "--dport" ∷ net.itoa rule.backend_port ∷ [])
    ++ (if rule.snat_ip == ""
        then "-j" ∷ "MASQUERADE" ∷ []
        else "-j" ∷ "SNAT" ∷ "--to-source" ∷ rule.snat_ip ∷ [])

unfoldable pub build_forward_rule_spec : Net → ForwardRule → List String
build_forward_rule_spec net rule =
    "-d"
    ∷ rule.backend_ip
    ∷ "-p"
    ∷ rule.protocol
    ∷ "--dport"
    ∷ net.itoa rule.backend_port
    ∷ "-j"
    ∷ "ACCEPT"
    ∷ []

module _ (net : Net) {T : Type 0} (ops : Iptables T) where
  unfoldable pub add_rule : SnatRule → T → Option Error × T
  add_rule rule t = ops.append_unique nat_table snat_chain (build_rule_spec net rule) t

  unfoldable pub delete_rule : SnatRule → T → Option Error × T
  delete_rule rule t = ops.delete_if_exists nat_table snat_chain (build_rule_spec net rule) t

  unfoldable pub add_forward_rule : ForwardRule → T → Option Error × T
  add_forward_rule rule t =
      ops.append_unique filter_table forward_chain (build_forward_rule_spec net rule) t

  unfoldable pub delete_forward_rule : ForwardRule → T → Option Error × T
  delete_forward_rule rule t =
      ops.delete_if_exists filter_table forward_chain (build_forward_rule_spec net rule) t

  -- An entry whose rule cannot be deleted stays.
  unfoldable pub remove_stale :
      Dict String SnatRule
      → Dict String SnatRule
      → T × Dict String SnatRule
      → T × Dict String SnatRule
  remove_stale desired [] m = m
  remove_stale desired ((key, rule) ∷ rest) m =
      let deleted = delete_rule rule m.0 in
      let after =
        if is_some (lookup key desired)
        then m
        else (deleted.1, (if is_some deleted.0 then m.1 else erase key m.1)) in
      remove_stale desired rest after

  -- The rule is added, or its old one stays where that fails.
  unfoldable pub put_rule : String → SnatRule → T × Dict String SnatRule → T × Dict String SnatRule
  put_rule key rule m =
      let added = add_rule rule m.0 in
      (added.1, (if is_some added.0 then m.1 else insert key rule m.1))

  -- One rule of the second loop: a rule with another address is deleted first.
  unfoldable pub update_rule :
      String → SnatRule → T × Dict String SnatRule → T × Dict String SnatRule
  update_rule key rule m = elim (lookup key m.1) [
    | none ↦ put_rule key rule m
    | some existing ↦
        let deleted = delete_rule existing m.0 in
        if existing.snat_ip == rule.snat_ip
        then m
        else if is_some deleted.0
        then (deleted.1, m.1)
        else put_rule key rule (deleted.1, m.1)
  ]

  unfoldable pub update_rules :
      Dict String SnatRule → T × Dict String SnatRule → T × Dict String SnatRule
  update_rules [] m = m
  update_rules ((key, rule) ∷ rest) m = update_rules rest (update_rule key rule m)

  unfoldable pub remove_stale_forward :
      Dict String ForwardRule
      → Dict String ForwardRule
      → T × Dict String ForwardRule
      → T × Dict String ForwardRule
  remove_stale_forward desired [] m = m
  remove_stale_forward desired ((key, rule) ∷ rest) m =
      let deleted = delete_forward_rule rule m.0 in
      let after =
        if is_some (lookup key desired)
        then m
        else (deleted.1, (if is_some deleted.0 then m.1 else erase key m.1)) in
      remove_stale_forward desired rest after

  unfoldable pub add_forward_rules :
      Dict String ForwardRule → T × Dict String ForwardRule → T × Dict String ForwardRule
  add_forward_rules [] m = m
  add_forward_rules ((key, rule) ∷ rest) m =
      let added = add_forward_rule rule m.0 in
      let after =
        if is_some (lookup key m.1)
        then m
        else (added.1, (if is_some added.0 then m.1 else insert key rule m.1)) in
      add_forward_rules rest after

  -- Failures are logged: the result is always nil.
  module _ (rng : MapRange) where
    unfoldable pub reconcile : List SnatRule → LinuxManager T → Option Error × LinuxManager T
    reconcile rules m =
        let desired = desired_map net rules [] in
        let kept = remove_stale desired (rng.order String SnatRule m.managed) (m.ipt, m.managed) in
        let done = update_rules (rng.order String SnatRule desired) kept in
        (none, record m { ipt = done.0; managed = done.1 })

    unfoldable pub reconcile_forward :
        List ForwardRule → LinuxManager T → Option Error × LinuxManager T
    reconcile_forward rules m =
        let desired = desired_forward_map net rules [] in
        let kept =
          remove_stale_forward desired (rng.order String ForwardRule m.managed_forward)
            (m.ipt, m.managed_forward) in
        let done = add_forward_rules (rng.order String ForwardRule desired) kept in
        (none, record m { ipt = done.0; managed_forward = done.1 })

-- The six calls are made whatever fails.
unfoldable pub cleanup : {T : Type 0} → Iptables T → LinuxManager T → Option Error × LinuxManager T
cleanup ops m =
    let t1 = (ops.clear_chain nat_table snat_chain m.ipt).1 in
    let t2 = (ops.delete_if_exists nat_table "POSTROUTING" ("-j" ∷ snat_chain ∷ []) t1).1 in
    let t3 = (ops.delete_chain nat_table snat_chain t2).1 in
    let t4 = (ops.clear_chain filter_table forward_chain t3).1 in
    let t5 = (ops.delete_if_exists filter_table "FORWARD" ("-j" ∷ forward_chain ∷ []) t4).1 in
    let t6 = (ops.delete_chain filter_table forward_chain t5).1 in
    (none, record { ipt = t6; managed = []; managed_forward = [] })

abbrev pub linux_manager : Net → {T : Type 0} → Iptables T → MapRange → SnatManager (LinuxManager T)
linux_manager net ops rng = record {
  reconcile = reconcile net ops rng;
  reconcile_forward = reconcile_forward net ops rng;
  cleanup = cleanup ops;
}
