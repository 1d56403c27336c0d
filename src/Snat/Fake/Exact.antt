-- ===== src/Snat/Fake/Exact.antt =====
-- The rules after a reconcile of the in-memory manager, pkg/snat/manager_fake.go.
use fast_vip.Prelude.{
  String, List, [], ◌∷◌, Option, none, some, ◌≡◌, refl, if◌then◌else◌, ◌==◌, ==_iff, string_eq,
  Dict, lookup, insert, erase, is_some, IsUnique, lookup-insert, lookup-erase, insert-IsUnique,
  erase-IsUnique, MapRange, arith,
}
use fast_vip.Net.{Net}
use fast_vip.Snat.{SnatRule, ForwardRule, snat_key, forward_key}
use fast_vip.Snat.Fake.{
  FakeManager, remove_stale, add_rule, add_rules, add_forward_rules, desired_map,
  desired_forward_map, reconcile, reconcile_forward,
}

-- What stands under a key after a reconcile: a rule with the wanted address is kept as it was.
abbrev pub kept_rule : Option SnatRule → Option SnatRule → Option SnatRule
kept_rule none old = none
kept_rule (some r) none = some r
kept_rule (some r) (some old) = if old.snat_ip == r.snat_ip then some old else some r

abbrev pub kept_forward : Option ForwardRule → Option ForwardRule → Option ForwardRule
kept_forward none old = none
kept_forward (some r) none = some r
kept_forward (some r) (some old) = some old

module _ {V : Type 0} where
  lookup-remove_stale :
      (desired es managed : Dict String V) (j : String)
      → lookup j (remove_stale desired es managed) ≡ (
          if is_some (lookup j desired)
          then lookup j managed
          else if is_some (lookup j es)
          then none
          else lookup j managed)
  unfolding remove_stale lookup
  lookup-remove_stale desired [] managed j = ground arith
  lookup-remove_stale desired ((k, v) ∷ es) managed j = ground (
    arith,
    lookup-remove_stale desired es (if is_some (lookup k desired) then managed else erase k managed)
        j,
    lookup-erase k j managed,
    ==_iff k j,
  )

  remove_stale-IsUnique :
      (desired es managed : Dict String V)
      → IsUnique managed
      → IsUnique (remove_stale desired es managed)
  unfolding remove_stale
  remove_stale-IsUnique desired [] managed u = u
  remove_stale-IsUnique desired ((k, v) ∷ es) managed u =
      remove_stale-IsUnique desired es _ (ground (arith, erase-IsUnique k managed u))

lookup-add_rules :
    (es managed : Dict String SnatRule) (j : String)
    → IsUnique es
    → lookup j (add_rules es managed) ≡ elim (lookup j es) [
      | none ↦ lookup j managed
      | some r ↦ kept_rule (some r) (lookup j managed)
    ]
unfolding add_rules add_rule lookup
lookup-add_rules [] managed j u = refl
lookup-add_rules ((k, r) ∷ es) managed j u = ground (
  arith,
  lookup-add_rules es (add_rule k r managed) j u.1,
  lookup-insert k j r managed,
  ==_iff k j,
)

lookup-add_forward_rules :
    (es managed : Dict String ForwardRule) (j : String)
    → IsUnique es
    → lookup j (add_forward_rules es managed) ≡ elim (lookup j es) [
      | none ↦ lookup j managed
      | some r ↦ kept_forward (some r) (lookup j managed)
    ]
unfolding add_forward_rules lookup
lookup-add_forward_rules [] managed j u = refl
lookup-add_forward_rules ((k, r) ∷ es) managed j u = ground (
  arith,
  lookup-add_forward_rules es (if is_some (lookup k managed) then managed else insert k r managed) j
      u.1,
  lookup-insert k j r managed,
  ==_iff k j,
)

module _ (net : Net) where
  desired_map-IsUnique :
      (rules : List SnatRule) (m : Dict String SnatRule)
      → IsUnique m
      → IsUnique (desired_map net rules m)
  unfolding desired_map
  desired_map-IsUnique [] m u = u
  desired_map-IsUnique (r ∷ rules) m u =
      desired_map-IsUnique rules _ (insert-IsUnique (snat_key net r) r m u)

  desired_forward_map-IsUnique :
      (rules : List ForwardRule) (m : Dict String ForwardRule)
      → IsUnique m
      → IsUnique (desired_forward_map net rules m)
  unfolding desired_forward_map
  desired_forward_map-IsUnique [] m u = u
  desired_forward_map-IsUnique (r ∷ rules) m u =
      desired_forward_map-IsUnique rules _ (insert-IsUnique (forward_key net r) r m u)

  -- If the managed map holds a key once, then after a reconcile of the SNAT rules each key has the
  -- wanted rule, where a rule with the wanted address is kept as it was, and a key that is not
  -- wanted has none, whatever the order of the maps.
  pub reconcile-kept_rule :
      (rng : MapRange) (rules : List SnatRule) (m : FakeManager)
      → IsUnique m.managed
      → (k : String)
      → lookup k (reconcile net rng rules m).1.managed
        ≡ kept_rule (lookup k (desired_map net rules [])) (lookup k m.managed)
  unfolding reconcile
  reconcile-kept_rule rng rules m u k =
      let desired = desired_map net rules [] in
      let ud = desired_map-IsUnique rules [] tt in
      ground (
        arith,
        lookup-add_rules (rng.order String SnatRule desired)
            (remove_stale desired (rng.order String SnatRule m.managed) m.managed) k
            (rng.order-IsUnique String SnatRule desired ud),
        lookup-remove_stale desired (rng.order String SnatRule m.managed) m.managed k,
        rng.lookup-order String SnatRule k m.managed u,
        rng.lookup-order String SnatRule k desired ud,
      )

  -- If the managed map holds a key once, then after a reconcile of the FORWARD rules each key has
  -- the wanted rule, where a rule that is there under a wanted key is kept as it was, and a key
  -- that is not wanted has none, whatever the order of the maps.
  pub reconcile_forward-kept_forward :
      (rng : MapRange) (rules : List ForwardRule) (m : FakeManager)
      → IsUnique m.managed_forward
      → (k : String)
      → lookup k (reconcile_forward net rng rules m).1.managed_forward
        ≡ kept_forward (lookup k (desired_forward_map net rules [])) (lookup k m.managed_forward)
  unfolding reconcile_forward
  reconcile_forward-kept_forward rng rules m u k =
      let desired = desired_forward_map net rules [] in
      let ud = desired_forward_map-IsUnique rules [] tt in
      ground (
        arith,
        lookup-add_forward_rules (rng.order String ForwardRule desired)
            (remove_stale desired (rng.order String ForwardRule m.managed_forward)
              m.managed_forward)
            k (rng.order-IsUnique String ForwardRule desired ud),
        lookup-remove_stale desired (rng.order String ForwardRule m.managed_forward)
            m.managed_forward k,
        rng.lookup-order String ForwardRule k m.managed_forward u,
        rng.lookup-order String ForwardRule k desired ud,
      )
