-- ===== src/Tests/Chains.antt =====
-- The theorem about a new rule manager, over tables that are a map of what is in them.
use fast_vip.Prelude.{
  ℕ, String, Bool, true, List, [], ◌∷◌, none, ◌≡◌, refl, arith, Dict, lookup, insert, erase,
  is_some, list_eq, string_eq, lookup-insert, lookup-insert_self, Result, ok,
}
use fast_vip.Snat.Linux.{Iptables, LinuxManager}
use fast_vip.Snat.Linux.Chains.{new_manager, ensure_chain, ensure_forward_chain}
use fast_vip.Snat.Linux.Chains.Ready
use fast_vip.Snat.Linux.Chains.Ready.{Fact, has_chain, has_rule, Makes, HasSnat, HasForward}

abbrev Tables : Type 0
Tables = Dict (List String) ℕ

abbrev encode : Fact → List String
encode (has_chain table chain) = table ∷ chain ∷ []
encode (has_rule table chain spec) = table ∷ chain ∷ spec

abbrev table_ops : Iptables Tables
table_ops = record {
  chain_exists = λ table chain t. ok (is_some (lookup (table ∷ chain ∷ []) t));
  new_chain = λ table chain t. (none, insert (table ∷ chain ∷ []) 0 t);
  exists = λ table chain spec t. ok (is_some (lookup (table ∷ chain ∷ spec) t));
  insert_at = λ table chain pos spec t. (none, insert (table ∷ chain ∷ spec) 0 t);
  append_unique = λ table chain spec t. (none, insert (table ∷ chain ∷ spec) 0 t);
  delete_if_exists = λ table chain spec t. (none, erase (table ∷ chain ∷ spec) t);
  clear_chain = λ table chain t. (none, t);
  delete_chain = λ table chain t. (none, erase (table ∷ chain ∷ []) t);
  stats = λ table chain t. ok [];
}

stays :
    (k j : List String) (t : Tables)
    → is_some (lookup j t) ≡ true
    → is_some (lookup j (insert k 0 t)) ≡ true
stays k j t h = ground (arith, h, lookup-insert k j 0 t)

there : (k : List String) (t : Tables) → is_some (lookup k (insert k 0 t)) ≡ true
there k t = ground (arith, lookup-insert_self k 0 t)

from_ok : (b : Bool) → ◌≡◌ {A = Result Bool} (ok b) (ok true) → b ≡ true
from_ok b e = ground (arith, e)

abbrev table_makes : Makes table_ops
table_makes = record {
  Holds = λ f t. is_some (lookup (encode f) t) ≡ true;
  chain_found = λ table chain t e. from_ok (is_some (lookup (table ∷ chain ∷ []) t)) e;
  rule_found = λ table chain spec t e. from_ok (is_some (lookup (table ∷ chain ∷ spec) t)) e;
  chain_made = λ table chain t e. there (table ∷ chain ∷ []) t;
  rule_inserted = λ table chain pos spec t e. there (table ∷ chain ∷ spec) t;
  rule_appended = λ table chain spec t e. there (table ∷ chain ∷ spec) t;
  new_chain_stays = λ f table chain t h. stays (table ∷ chain ∷ []) (encode f) t h;
  insert_at_stays = λ f table chain pos spec t h. stays (table ∷ chain ∷ spec) (encode f) t h;
  append_unique_stays = λ f table chain spec t h. stays (table ∷ chain ∷ spec) (encode f) t h;
}

made : LinuxManager Tables
unfolding ensure_chain ensure_forward_chain lookup insert
made = record {
  ipt = (ensure_forward_chain table_ops (ensure_chain table_ops []).1).1;
  managed = [];
  managed_forward = [];
}

new_manager-made : (new_manager table_ops []).0 ≡ ok made
unfolding made new_manager
new_manager-made = refl

new_manager-ready_example :
    HasSnat table_ops table_makes made.ipt × HasForward table_ops table_makes made.ipt
new_manager-ready_example = Ready.new_manager-ready table_ops table_makes [] made new_manager-made
