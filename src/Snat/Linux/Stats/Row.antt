-- ===== src/Snat/Linux/Stats/Row.antt =====
-- The rows that iptables prints for the rules of the manager, pkg/snat/stats_parse.go.
use fast_vip.Prelude.{
  ℕ, String, false, List, [], ◌∷◌, some, ◌==◌, string_eq, starts_with, ◌≡◌, ◌≢◌, ◌^^◌, arith, refl,
}
use fast_vip.Net.{Net}
use fast_vip.Snat.{SnatRule, snat_key}
use fast_vip.Snat.Linux.Stats.{Scan, join_spaces, find_dport, extract_dport, parse_snat_stats_row}
use fast_vip.Snat.Linux.Stats.Prefix.{prefix-shown, prefix-apart}
use fast_vip.Snat.Linux.Stats.Port.{dport, dport-apart, folded_dport-append, token-apart}

-- The row of a rule, as the library gives it: an address ends in its prefix length, and what stands
-- after the destination is one text.
abbrev pub row_of : String → String → String → SnatRule → String → List String
row_of pkts bytes target rule extra =
    pkts
    ∷ bytes
    ∷ target
    ∷ rule.protocol
    ∷ "--"
    ∷ "*"
    ∷ "*"
    ∷ "0.0.0.0/0"
    ∷ (rule.backend_ip ^^ "/32")
    ∷ extra
    ∷ []

-- The rule with the address as the row has it.
abbrev pub with_prefix : SnatRule → SnatRule
with_prefix rule = record rule { backend_ip = rule.backend_ip ^^ "/32" }

find_dport_second :
    (token port : String) (rest : List String)
    → starts_with token "dpt:" ≡ false
    → (port == "") ≡ false
    → find_dport (token ∷ dport port ∷ rest) ≡ port
unfolding find_dport
find_dport_second token port [] h shown =
    ground (arith, token-apart token h, folded_dport-append port shown)
find_dport_second token port (next ∷ rest) h shown =
    ground (arith, token-apart token h, dport-apart port shown, folded_dport-append port shown)

module _ (net : Net) (scan : Scan) where
  key-apart : (rule : SnatRule) → snat_key net (with_prefix rule) ≢ snat_key net rule
  unfolding snat_key
  key-apart rule = prefix-apart rule.backend_ip _ _

  -- A row of the statistics of iptables for a rule, in which the address ends in the prefix length
  -- /32 that go-iptables puts there, whose protocol and printed port are not empty and whose
  -- protocol does not start with dpt:, with the protocol and the port first among the words after
  -- the destination, and with counters that scan, is parsed to its two counters under the key of
  -- the rule with that address, which is not the key of the rule.
  pub parse-snat_key :
      (rule : SnatRule) (pkts bytes target extra : String) (p b : ℕ) (rest : List String)
      → scan.uint64 pkts ≡ some p
      → scan.uint64 bytes ≡ some b
      → scan.fields extra ≡ rule.protocol ∷ dport (net.itoa rule.backend_port) ∷ rest
      → starts_with rule.protocol "dpt:" ≡ false
      → (rule.protocol == "") ≡ false
      → (net.itoa rule.backend_port == "") ≡ false
      → (parse_snat_stats_row scan (row_of pkts bytes target rule extra)
          ≡ some (snat_key net (with_prefix rule), record { packets = p; bytes = b }))
        × (snat_key net (with_prefix rule) ≢ snat_key net rule)
  unfolding parse_snat_stats_row extract_dport join_spaces snat_key
  parse-snat_key rule pkts bytes target extra p b rest hp hb hf h h1 h3 = (
    rw
        (
          hp,
          hb,
          hf,
          find_dport_second rule.protocol (net.itoa rule.backend_port) rest h h3,
          h1,
          prefix-shown rule.backend_ip,
          h3,
        )
        refl,
    key-apart rule,
  )
