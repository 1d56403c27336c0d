-- ===== src/Tests/Iptables.antt =====
-- The theorems about the rule manager over a chain that is a map of rules.
use fast_vip.Prelude.{
  ◌≢◌, ℕ, String, true, List, [], ◌∷◌, none, some, if◌then◌else◌, ◌==◌, ==_iff, ◌≡◌, refl, arith,
  Dict, lookup, insert, erase, is_some, list_eq, string_eq, lookup-insert, lookup-erase, ok,
  written_order,
}
use fast_vip.Snat.Fake as Fake
use fast_vip.Snat.{SnatRule, ForwardRule, snat_key}
use fast_vip.Snat.Linux.{Iptables, LinuxManager, build_rule_spec, reconcile, reconcile_forward}
use fast_vip.Snat.Linux.Same
use fast_vip.Snat.Linux.Same.{Succeeds, as_fake}
use fast_vip.Snat.Linux.Leak
use fast_vip.Snat.Linux.Leak.{Keeps, IsTidy}
use fast_vip.Snat.Linux.Stats.{Scan, parse_snat_stats_row}
use fast_vip.Snat.Linux.Stats.Row
use fast_vip.Snat.Linux.Stats.Row.{row_of, with_prefix}
use fast_vip.Tests.Data.{small_net}

-- One chain; the number of a rule is of no use.
abbrev Chain : Type 0
Chain = Dict (List String) ℕ

abbrev chain_ops : Iptables Chain
chain_ops = record {
  chain_exists = λ table chain t. ok true;
  new_chain = λ table chain t. (none, t);
  exists = λ table chain spec t. ok (is_some (lookup spec t));
  insert_at = λ table chain pos spec t. (none, insert spec 0 t);
  append_unique = λ table chain spec t. (none, insert spec 0 t);
  delete_if_exists = λ table chain spec t. (none, erase spec t);
  clear_chain = λ table chain t. (none, []);
  delete_chain = λ table chain t. (none, []);
  stats = λ table chain t. ok [];
}

abbrev chain_succeeds : Succeeds chain_ops
chain_succeeds = record {
  appends = λ table chain spec t. refl;
  deletes = λ table chain spec t. refl;
}

abbrev chain_keeps : Keeps chain_ops
chain_keeps = record {
  Holds = λ spec t. is_some (lookup spec t) ≡ true;
  append_new =
      λ spec other t held. ground (arith, held, lookup-insert spec other 0 t, ==_iff spec other);
  append_failed = λ spec other t e failed held. absurd (ground (arith, failed));
  delete_old = λ spec other t held. ground (arith, held, lookup-erase spec other t);
  delete_gone = λ spec other t done held same.
      ground (arith, held, lookup-erase spec other t, ==_iff spec other, same);
}

abbrev old_rule : SnatRule
old_rule = record { backend_ip = "10.0.0.2"; protocol = "tcp"; snat_ip = ""; backend_port = 80 }

abbrev new_rule : SnatRule
new_rule = record {
  backend_ip = "10.0.0.3";
  protocol = "tcp";
  snat_ip = "10.0.0.1";
  backend_port = 80;
}

abbrev new_forward : ForwardRule
new_forward = record { backend_ip = "10.0.0.3"; protocol = "tcp"; backend_port = 80 }

abbrev with_old : LinuxManager Chain
with_old = record {
  ipt = (build_rule_spec small_net old_rule, 0) ∷ [];
  managed = ("10.0.0.2:80/tcp", old_rule) ∷ [];
  managed_forward = [];
}

reconcile-as_fake_example :
    as_fake (reconcile small_net chain_ops written_order (new_rule ∷ []) with_old).1
    ≡ (Fake.reconcile small_net written_order (new_rule ∷ []) (as_fake with_old)).1
reconcile-as_fake_example =
    Same.reconcile-as_fake small_net chain_ops chain_succeeds written_order (new_rule ∷ []) with_old

reconcile_forward-as_fake_example :
    as_fake (reconcile_forward small_net chain_ops written_order (new_forward ∷ []) with_old).1
    ≡ (Fake.reconcile_forward small_net written_order (new_forward ∷ []) (as_fake with_old)).1
reconcile_forward-as_fake_example =
    Same.reconcile_forward-as_fake small_net chain_ops chain_succeeds written_order
      (new_forward ∷ []) with_old

with_old-IsTidy : IsTidy small_net chain_ops chain_keeps with_old
unfolding lookup
with_old-IsTidy = (
  (refl, tt),
  λ spec held. (
    "10.0.0.2:80/tcp",
    old_rule,
    refl,
    ground (arith, held, ==_iff (build_rule_spec small_net old_rule) spec),
  ),
)

reconcile-IsTidy_example :
    IsTidy small_net chain_ops chain_keeps
      (reconcile small_net chain_ops written_order (new_rule ∷ []) with_old).1
reconcile-IsTidy_example =
    Leak.reconcile-IsTidy small_net chain_ops chain_keeps written_order (new_rule ∷ []) with_old
      with_old-IsTidy

abbrev small_scan : Scan
small_scan = record {
  uint64 = λ s. if s == "42" then some 42 else none;
  fields = λ s. "tcp" ∷ "dpt:80" ∷ "to:10.0.0.1" ∷ [];
}

parse-snat_key_example :
    (parse_snat_stats_row small_scan (row_of "42" "42" "SNAT" new_rule "tcp dpt:80 to:10.0.0.1")
      ≡ some (snat_key small_net (with_prefix new_rule), record { packets = 42; bytes = 42 }))
    × (snat_key small_net (with_prefix new_rule) ≢ snat_key small_net new_rule)
parse-snat_key_example =
    Row.parse-snat_key small_net small_scan new_rule "42" "42" "SNAT" "tcp dpt:80 to:10.0.0.1" 42 42
      ("to:10.0.0.1" ∷ []) refl refl refl refl refl refl
