-- ===== src/Snat/Linux/Same.antt =====
-- The managed maps of pkg/snat/manager_linux.go beside those of pkg/snat/manager_fake.go.
use fast_vip.Prelude.{
  String, List, [], ◌∷◌, none, if◌then◌else◌, string_eq, Dict, lookup, insert, erase, is_some,
  MapRange, ◌≡◌, refl, arith, ◌∙◌, ap, Option-cases, inl, inr,
}
use fast_vip.Net.{Net}
use fast_vip.Snat.{SnatRule, ForwardRule}
use fast_vip.Snat.Fake as Fake
use fast_vip.Snat.Fake.{FakeManager, desired_map, desired_forward_map}
use fast_vip.Snat.Linux.{
  build_rule_spec, build_forward_rule_spec, nat_table, snat_chain, filter_table, forward_chain,
  Iptables, LinuxManager, add_rule, delete_rule, add_forward_rule, delete_forward_rule,
  remove_stale, put_rule, update_rule, update_rules, remove_stale_forward, add_forward_rules,
  reconcile, reconcile_forward,
}

-- The calls that add and delete rules do not fail.
pub record Succeeds {T : Type 0} (ops : Iptables T) : Type 0 where
  pub appends :
      (table chain : String) (spec : List String) (t : T)
      → (ops.append_unique table chain spec t).0 ≡ none
  pub deletes :
      (table chain : String) (spec : List String) (t : T)
      → (ops.delete_if_exists table chain spec t).0 ≡ none

abbrev pub as_fake : {T : Type 0} → LinuxManager T → FakeManager
as_fake m = record { managed = m.managed; managed_forward = m.managed_forward }

module _ (net : Net) {T : Type 0} (ops : Iptables T) (fine : Succeeds ops) where
  managed-remove_stale :
      (desired es : Dict String SnatRule) (m : T × Dict String SnatRule)
      → (remove_stale net ops desired es m).1 ≡ Fake.remove_stale desired es m.1
  unfolding remove_stale delete_rule Fake.remove_stale
  managed-remove_stale desired [] m = refl
  managed-remove_stale desired ((k, r) ∷ es) m =
      let deleted = delete_rule net ops r m.0 in
      let after =
        if is_some (lookup k desired)
        then m
        else (deleted.1, (if is_some deleted.0 then m.1 else erase k m.1)) in
      managed-remove_stale desired es after
      ∙ ap (Fake.remove_stale desired es)
          (ground (arith, fine.deletes nat_table snat_chain (build_rule_spec net r) m.0))

  managed-update_rule :
      (k : String) (r : SnatRule) (m : T × Dict String SnatRule)
      → (update_rule net ops k r m).1 ≡ Fake.add_rule k r m.1
  unfolding update_rule put_rule add_rule delete_rule Fake.add_rule
  managed-update_rule k r m = elim (Option-cases (lookup k m.1)) [
    | inl e ↦ ground (arith, fine.appends nat_table snat_chain (build_rule_spec net r) m.0)
    | inr (old, e) ↦ ground (
      arith,
      fine.deletes nat_table snat_chain (build_rule_spec net old) m.0,
      fine.appends nat_table snat_chain (build_rule_spec net r) (delete_rule net ops old m.0).1,
    )
  ]

  managed-update_rules :
      (es : Dict String SnatRule) (m : T × Dict String SnatRule)
      → (update_rules net ops es m).1 ≡ Fake.add_rules es m.1
  unfolding update_rules Fake.add_rules
  managed-update_rules [] m = refl
  managed-update_rules ((k, r) ∷ es) m =
      managed-update_rules es (update_rule net ops k r m)
      ∙ ap (Fake.add_rules es) (managed-update_rule k r m)

  managed-remove_stale_forward :
      (desired es : Dict String ForwardRule) (m : T × Dict String ForwardRule)
      → (remove_stale_forward net ops desired es m).1 ≡ Fake.remove_stale desired es m.1
  unfolding remove_stale_forward delete_forward_rule Fake.remove_stale
  managed-remove_stale_forward desired [] m = refl
  managed-remove_stale_forward desired ((k, r) ∷ es) m =
      let deleted = delete_forward_rule net ops r m.0 in
      let after =
        if is_some (lookup k desired)
        then m
        else (deleted.1, (if is_some deleted.0 then m.1 else erase k m.1)) in
      managed-remove_stale_forward desired es after
      ∙ ap (Fake.remove_stale desired es) (
          ground
            (arith, fine.deletes filter_table forward_chain (build_forward_rule_spec net r) m.0))

  managed-add_forward_rules :
      (es : Dict String ForwardRule) (m : T × Dict String ForwardRule)
      → (add_forward_rules net ops es m).1 ≡ Fake.add_forward_rules es m.1
  unfolding add_forward_rules add_forward_rule Fake.add_forward_rules
  managed-add_forward_rules [] m = refl
  managed-add_forward_rules ((k, r) ∷ es) m =
      let added = add_forward_rule net ops r m.0 in
      let after =
        if is_some (lookup k m.1)
        then m
        else (added.1, (if is_some added.0 then m.1 else insert k r m.1)) in
      managed-add_forward_rules es after
      ∙ ap (Fake.add_forward_rules es) (
          ground
            (arith, fine.appends filter_table forward_chain (build_forward_rule_spec net r) m.0))

  -- Where the calls of iptables that add and delete rules do not fail, a reconcile of the SNAT
  -- rules changes the managed maps just as that of the in-memory manager does.
  pub reconcile-as_fake :
      (rng : MapRange) (rules : List SnatRule) (m : LinuxManager T)
      → as_fake (reconcile net ops rng rules m).1 ≡ (Fake.reconcile net rng rules (as_fake m)).1
  unfolding reconcile Fake.reconcile
  reconcile-as_fake rng rules m =
      let desired = desired_map net rules [] in
      let managed = rng.order String SnatRule m.managed in
      let wanted = rng.order String SnatRule desired in
      ap (λ found. record { managed = found; managed_forward = m.managed_forward })
        (managed-update_rules wanted (remove_stale net ops desired managed (m.ipt, m.managed))
          ∙ ap (Fake.add_rules wanted) (managed-remove_stale desired managed (m.ipt, m.managed)))

  -- Where the calls of iptables that add and delete rules do not fail, a reconcile of the FORWARD
  -- rules changes the managed maps just as that of the in-memory manager does.
  pub reconcile_forward-as_fake :
      (rng : MapRange) (rules : List ForwardRule) (m : LinuxManager T)
      → as_fake (reconcile_forward net ops rng rules m).1
        ≡ (Fake.reconcile_forward net rng rules (as_fake m)).1
  unfolding reconcile_forward Fake.reconcile_forward
  reconcile_forward-as_fake rng rules m =
      let desired = desired_forward_map net rules [] in
      let managed = rng.order String ForwardRule m.managed_forward in
      let wanted = rng.order String ForwardRule desired in
      ap (λ found. record { managed = m.managed; managed_forward = found })
        (managed-add_forward_rules wanted
            (remove_stale_forward net ops desired managed (m.ipt, m.managed_forward))
          ∙ ap (Fake.add_forward_rules wanted)
              (managed-remove_stale_forward desired managed (m.ipt, m.managed_forward)))
