-- ===== src/Tests/Snat.antt =====
-- The theorems about the rule managers at one stale and one wanted rule.
use fast_vip.Prelude.{[], ◌∷◌, ◌≡◌, refl, lookup, written_order, string_eq}
use fast_vip.Snat.{SnatRule, ForwardRule}
use fast_vip.Snat.Fake.{FakeManager, reconcile, reconcile_forward, desired_map, desired_forward_map}
use fast_vip.Snat.Fake.Exact
use fast_vip.Snat.Fake.Exact.{kept_rule, kept_forward}
use fast_vip.Tests.Data.{small_net}

abbrev old_rule : SnatRule
old_rule = record {
  backend_ip = "10.0.0.2";
  protocol = "tcp";
  snat_ip = "10.0.0.1";
  backend_port = 80;
}

abbrev new_rule : SnatRule
new_rule = record {
  backend_ip = "10.0.0.3";
  protocol = "tcp";
  snat_ip = "10.0.0.1";
  backend_port = 80;
}

abbrev old_forward : ForwardRule
old_forward = record { backend_ip = "10.0.0.2"; protocol = "tcp"; backend_port = 80 }

abbrev new_forward : ForwardRule
new_forward = record { backend_ip = "10.0.0.3"; protocol = "tcp"; backend_port = 80 }

abbrev with_old : FakeManager
with_old = record {
  managed = ("10.0.0.2:80/tcp", old_rule) ∷ [];
  managed_forward = ("10.0.0.2:80/tcp", old_forward) ∷ [];
}

reconcile-kept_rule_example :
    lookup "10.0.0.2:80/tcp" (reconcile small_net written_order (new_rule ∷ []) with_old).1.managed
    ≡ kept_rule
        (lookup "10.0.0.2:80/tcp" (desired_map small_net (new_rule ∷ []) []))
        (lookup "10.0.0.2:80/tcp" with_old.managed)
reconcile-kept_rule_example =
    Exact.reconcile-kept_rule small_net written_order (new_rule ∷ []) with_old
      (unfold lookup in (refl, tt)) "10.0.0.2:80/tcp"

reconcile_forward-kept_forward_example :
    lookup "10.0.0.2:80/tcp"
      (reconcile_forward small_net written_order (new_forward ∷ []) with_old).1.managed_forward
    ≡ kept_forward
        (lookup "10.0.0.2:80/tcp" (desired_forward_map small_net (new_forward ∷ []) []))
        (lookup "10.0.0.2:80/tcp" with_old.managed_forward)
reconcile_forward-kept_forward_example =
    Exact.reconcile_forward-kept_forward small_net written_order (new_forward ∷ []) with_old
      (unfold lookup in (refl, tt)) "10.0.0.2:80/tcp"
