-- ===== src/Snat/Linux/Leak.antt =====
-- The chain of the SNAT rules beside the map of the managed rules, pkg/snat/manager_linux.go.
use fast_vip.Prelude.{
  String, false, List, [], ◌∷◌, none, some, if◌then◌else◌, ◌==◌, ==_iff, string_eq, Dict, lookup,
  erase, is_some, MapRange, Error, ◌≡◌, ◌≢◌, ◌⊎◌, sym, subst, arith, ◌∙◌, Option-cases, Bool-cases,
  inl, inr, lookup-insert, lookup-insert_self, lookup-erase, Every, Every-head, Every-tail,
  lookup-tail, erase-IsUnique, insert-IsUnique, IsUnique, IsUnique,
}
use fast_vip.Net.{Net}
use fast_vip.Snat.{SnatRule}
use fast_vip.Snat.Fake.{desired_map}
use fast_vip.Snat.Linux.{
  Iptables, LinuxManager, nat_table, snat_chain, build_rule_spec, add_rule, delete_rule,
  remove_stale, put_rule, update_rule, update_rules, reconcile,
}

-- What iptables promises of the rules of the SNAT chain: a rule that was not there is the appended one,
-- a call that fails adds none, and a deleted rule is gone.
pub record Keeps {T : Type 0} (ops : Iptables T) : Type 1 where
  pub Holds : List String → T → Type 0
  pub append_new :
      (spec other : List String) (t : T)
      → Holds other (ops.append_unique nat_table snat_chain spec t).1
      → Holds other t ⊎ (other ≡ spec)
  pub append_failed :
      (spec other : List String) (t : T) (e : Error)
      → (ops.append_unique nat_table snat_chain spec t).0 ≡ some e
      → Holds other (ops.append_unique nat_table snat_chain spec t).1
      → Holds other t
  pub delete_old :
      (spec other : List String) (t : T)
      → Holds other (ops.delete_if_exists nat_table snat_chain spec t).1
      → Holds other t
  pub delete_gone :
      (spec other : List String) (t : T)
      → (ops.delete_if_exists nat_table snat_chain spec t).0 ≡ none
      → Holds other (ops.delete_if_exists nat_table snat_chain spec t).1
      → other ≢ spec

module _ (net : Net) {T : Type 0} (ops : Iptables T) (laws : Keeps ops) where
  -- A rule of the chain is that of a managed entry.
  abbrev pub IsOf : List String → Dict String SnatRule → Type 0
  IsOf spec managed =
      (k : String) × (r : SnatRule) × (lookup k managed ≡ some r) × (spec ≡ build_rule_spec net r)

  abbrev pub IsAccounted : T × Dict String SnatRule → Type 0
  IsAccounted m = (spec : List String) → laws.Holds spec m.0 → IsOf spec m.1

  -- The same, by an entry under another key.
  abbrev IsAccountedBeside : String → T × Dict String SnatRule → Type 0
  IsAccountedBeside key m =
      (spec : List String)
      → laws.Holds spec m.0
      → (k : String) × (r : SnatRule) × (lookup k m.1 ≡ some r)
        × (spec ≡ build_rule_spec net r)
        × ((key == k) ≡ false)

  beside-missing :
      (key : String) (m : T × Dict String SnatRule)
      → lookup key m.1 ≡ none
      → IsAccounted m
      → IsAccountedBeside key m
  beside-missing key m gone acc spec held =
      let (k, r, found, same) = acc spec held in (k, r, found, same, ground (arith, ==_iff key k))

  beside-delete_rule :
      (key : String) (r : SnatRule) (m : T × Dict String SnatRule)
      → lookup key m.1 ≡ some r
      → (delete_rule net ops r m.0).0 ≡ none
      → IsAccounted m
      → IsAccountedBeside key ((delete_rule net ops r m.0).1, m.1)
  unfolding delete_rule
  beside-delete_rule key r m found done acc spec held =
      let (k, other, at, same) = acc spec (laws.delete_old (build_rule_spec net r) spec m.0 held) in
      let gone = laws.delete_gone (build_rule_spec net r) spec m.0 done held in
      (
        k,
        other,
        at,
        same,
        elim (Bool-cases (key == k)) [
          | inl e ↦ absurd (gone (ground (arith, ==_iff key k, found, at, same, e)))
          | inr e ↦ e
        ],
      )

  IsAccounted-delete_rule :
      (r : SnatRule) (m : T × Dict String SnatRule)
      → IsAccounted m
      → IsAccounted ((delete_rule net ops r m.0).1, m.1)
  unfolding delete_rule
  IsAccounted-delete_rule r m acc spec held =
      acc spec (laws.delete_old (build_rule_spec net r) spec m.0 held)

  erase-IsAccounted :
      (key : String) (m : T × Dict String SnatRule)
      → IsAccountedBeside key m
      → IsAccounted (m.0, erase key m.1)
  erase-IsAccounted key m acc spec held =
      let (k, r, found, same, apart) = acc spec held in
      (k, r, ground (arith, lookup-erase key k m.1), same)

  put_rule-IsAccounted :
      (key : String) (r : SnatRule) (m : T × Dict String SnatRule)
      → IsAccounted m
      → IsAccountedBeside key m
      → IsAccounted (put_rule net ops key r m)
  unfolding put_rule add_rule
  put_rule-IsAccounted key r m acc beside = elim (Option-cases (add_rule net ops r m.0).0) [
    | inl e ↦ λ spec held. elim (laws.append_new (build_rule_spec net r) spec m.0 held) [
      | inl old ↦
          let (k, other, at, same, apart) = beside spec old in
          (k, other, ground (arith, lookup-insert key k r m.1), same)
      | inr new ↦ (key, r, ground (arith, lookup-insert_self key r m.1), new)
    ]
    | inr (e, failed) ↦ λ spec held.
        let (k, other, at, same) =
          acc spec (laws.append_failed (build_rule_spec net r) spec m.0 e failed held) in
        (k, other, ground arith, same)
  ]

  update_rule-IsAccounted :
      (key : String) (r : SnatRule) (m : T × Dict String SnatRule)
      → IsAccounted m
      → IsAccounted (update_rule net ops key r m)
  unfolding update_rule
  update_rule-IsAccounted key r m acc = elim (Option-cases (lookup key m.1)) [
    | inl gone ↦
        subst IsAccounted (ground arith)
          (put_rule-IsAccounted key r m acc (beside-missing key m gone acc))
    | inr (old, found) ↦ elim (Bool-cases (old.snat_ip == r.snat_ip)) [
      | inl same ↦ subst IsAccounted (ground arith) acc
      | inr changed ↦ elim (Option-cases (delete_rule net ops old m.0).0) [
        | inl done ↦ subst IsAccounted (ground arith) (
            put_rule-IsAccounted key r ((delete_rule net ops old m.0).1, m.1)
              (IsAccounted-delete_rule old m acc) (beside-delete_rule key old m found done acc))
        | inr (e, failed) ↦ subst IsAccounted (ground arith) (IsAccounted-delete_rule old m acc)
      ]
    ]
  ]

  update_rules-IsAccounted :
      (es : Dict String SnatRule) (m : T × Dict String SnatRule)
      → IsAccounted m
      → IsAccounted (update_rules net ops es m)
  unfolding update_rules
  update_rules-IsAccounted [] m acc = acc
  update_rules-IsAccounted ((k, r) ∷ es) m acc =
      update_rules-IsAccounted es (update_rule net ops k r m) (update_rule-IsAccounted k r m acc)

  -- The entries that are still to visit stand in the map.
  abbrev StandsIn : Dict String SnatRule → Dict String SnatRule → Type 0
  StandsIn managed es = Every (λ k r. lookup k managed ≡ some r) es

  -- One turn of the first loop.
  abbrev removed :
      Dict String SnatRule → String → SnatRule → T × Dict String SnatRule → T × Dict String SnatRule
  removed desired k r m =
      let deleted = delete_rule net ops r m.0 in
      if is_some (lookup k desired)
      then m
      else (deleted.1, (if is_some deleted.0 then m.1 else erase k m.1))

  removed-IsAccounted :
      (desired : Dict String SnatRule) (k : String) (r : SnatRule) (m : T × Dict String SnatRule)
      → lookup k m.1 ≡ some r
      → IsAccounted m
      → IsAccounted (removed desired k r m)
  removed-IsAccounted desired k r m found acc = elim (Bool-cases (is_some (lookup k desired))) [
    | inl wanted ↦ subst IsAccounted (ground arith) acc
    | inr stale ↦ elim (Option-cases (delete_rule net ops r m.0).0) [
      | inl done ↦ subst IsAccounted (ground arith) (
          erase-IsAccounted k ((delete_rule net ops r m.0).1, m.1)
            (beside-delete_rule k r m found done acc))
      | inr (e, failed) ↦ subst IsAccounted (ground arith) (IsAccounted-delete_rule r m acc)
    ]
  ]

  removed-StandsIn :
      (desired es : Dict String SnatRule) (k : String) (r : SnatRule) (m : T × Dict String SnatRule)
      → IsUnique ((k, r) ∷ es)
      → StandsIn m.1 ((k, r) ∷ es)
      → StandsIn (removed desired k r m).1 es
  removed-StandsIn desired es k r m u h j v found = ground (
    arith,
    lookup-tail k j r es u,
    lookup-erase k j m.1,
    Every-tail (λ k r. lookup k m.1 ≡ some r) k r es u h j v found,
  )

  remove_stale-IsAccounted :
      (desired es : Dict String SnatRule) (m : T × Dict String SnatRule)
      → IsUnique es
      → StandsIn m.1 es
      → IsAccounted m
      → IsAccounted (remove_stale net ops desired es m)
  unfolding remove_stale
  remove_stale-IsAccounted desired [] m u h acc = acc
  remove_stale-IsAccounted desired ((k, r) ∷ es) m u h acc =
      remove_stale-IsAccounted desired es (removed desired k r m) u.1
        (removed-StandsIn desired es k r m u h)
        (removed-IsAccounted desired k r m (Every-head (λ k r. lookup k m.1 ≡ some r) k r es h) acc)

  remove_stale-IsUnique :
      (desired es : Dict String SnatRule) (m : T × Dict String SnatRule)
      → IsUnique m.1
      → IsUnique (remove_stale net ops desired es m).1
  unfolding remove_stale
  remove_stale-IsUnique desired [] m u = u
  remove_stale-IsUnique desired ((k, r) ∷ es) m u =
      remove_stale-IsUnique desired es (removed desired k r m)
        (ground (arith, erase-IsUnique k m.1 u))

  update_rule-IsUnique :
      (k : String) (r : SnatRule) (m : T × Dict String SnatRule)
      → IsUnique m.1
      → IsUnique (update_rule net ops k r m).1
  unfolding update_rule put_rule
  update_rule-IsUnique k r m u = elim (Option-cases (lookup k m.1)) [
    | inl e ↦ ground (arith, insert-IsUnique k r m.1 u)
    | inr (old, e) ↦ ground (arith, insert-IsUnique k r m.1 u)
  ]

  update_rules-IsUnique :
      (es : Dict String SnatRule) (m : T × Dict String SnatRule)
      → IsUnique m.1
      → IsUnique (update_rules net ops es m).1
  unfolding update_rules
  update_rules-IsUnique [] m u = u
  update_rules-IsUnique ((k, r) ∷ es) m u =
      update_rules-IsUnique es (update_rule net ops k r m) (update_rule-IsUnique k r m u)

  -- Every rule of the chain is that of a managed entry, and no key is managed twice.
  abbrev pub IsTidy : LinuxManager T → Type 0
  IsTidy m = IsUnique m.managed × IsAccounted (m.ipt, m.managed)

  -- Whichever calls of iptables fail, in any order of the maps, and if a call that fails adds no
  -- rule, an append adds just its rule and a delete that succeeds removes its rule: when each rule
  -- of the chain EZLB-SNAT is that of a managed entry and no key is managed twice, that holds
  -- after a reconcile too.
  pub reconcile-IsTidy :
      (rng : MapRange) (rules : List SnatRule) (m : LinuxManager T)
      → IsTidy m
      → IsTidy (reconcile net ops rng rules m).1
  unfolding reconcile
  reconcile-IsTidy rng rules m (u, acc) =
      let desired = desired_map net rules [] in
      let managed = rng.order String SnatRule m.managed in
      let kept = remove_stale net ops desired managed (m.ipt, m.managed) in
      (
        update_rules-IsUnique (rng.order String SnatRule desired) kept
            (remove_stale-IsUnique desired managed (m.ipt, m.managed) u),
        update_rules-IsAccounted (rng.order String SnatRule desired) kept (
            remove_stale-IsAccounted desired managed (m.ipt, m.managed)
              (rng.order-IsUnique String SnatRule m.managed u)
              (λ k r found. sym (rng.lookup-order String SnatRule k m.managed u) ∙ found) acc),
      )
