-- ===== src/Snat/Linux/Stats.antt =====
-- pkg/snat/stats.go, pkg/snat/stats_parse.go and Stats of pkg/snat/manager_linux.go.
pub mod Port
pub mod Prefix
pub mod Row
use Prim.Native.String.{len, slice}
use fast_vip.Prelude.{
  ℕ, ltb, ◌&&◌, String, Bool, true, false, List, [], ◌∷◌, Option, none, some, if◌then◌else◌, ◌==◌,
  string_eq, Dict, insert, starts_with, ◌^^◌, Result, ok, err, ◌>>=◌, in_context, ◌≡◌, ◌||◌, arith,
  refl, ==_iff,
}
use fast_vip.Net.{Net}
use fast_vip.Snat.{SnatRule, snat_key}
use fast_vip.Snat.Linux.{Iptables, LinuxManager, nat_table, snat_chain}

pub record SnatRuleStats : Type 0 where
  pub packets : ℕ
  pub bytes : ℕ

-- What the parser calls of the standard library: fmt.Sscanf of one `%d` into a uint64, and strings.Fields.
pub record Scan : Type 0 where
  pub uint64 : String → Option ℕ
  pub fields : String → List String

unfoldable pub trim_prefix : String → String → String
trim_prefix s p = if starts_with s p then slice s (len p) (len s) else s

-- strings.Join(extra, " ")
unfoldable pub join_spaces : List String → String
join_spaces [] = ""
join_spaces (s ∷ []) = s
join_spaces (s ∷ t ∷ rest) = s ^^ " " ^^ join_spaces (t ∷ rest)

-- One token on its own, where it is not followed by the port.
abbrev pub folded_dport : String → Option String
folded_dport token =
    if starts_with token "dpt:" && ltb (len "dpt:") (len token)
    then some (trim_prefix token "dpt:")
    else none

unfoldable pub find_dport : List String → String
find_dport [] = ""
find_dport (token ∷ []) = elim (folded_dport token) [ none ↦ "" | some port ↦ port ]
find_dport (token ∷ next ∷ rest) =
    let others = find_dport (next ∷ rest) in
    if token == "dpt:" then next else elim (folded_dport token) [ none ↦ others | some port ↦ port ]

module _ (scan : Scan) where
  unfoldable pub extract_dport : List String → String
  extract_dport [] = ""
  extract_dport (e ∷ extra) = find_dport (scan.fields (join_spaces (e ∷ extra)))

  -- The fields are packets, bytes, target, protocol, options, in, out, source, destination, and what
  -- iptables prints of the matches.
  unfoldable pub parse_snat_stats_row : List String → Option (String × SnatRuleStats)
  parse_snat_stats_row
        (pkts ∷ bytes ∷ target ∷ protocol ∷ opt ∷ into ∷ out ∷ source ∷ destination ∷ extra) =
      let dport = extract_dport extra in
      elim (scan.uint64 pkts) [
        | none ↦ none
        | some p ↦ elim (scan.uint64 bytes) [
          | none ↦ none
          | some b ↦
              if protocol == "" || (destination == "" || dport == "")
              then none
              else some (
                destination ^^ ":" ^^ dport ^^ "/" ^^ protocol,
                record { packets = p; bytes = b },
              )
        ]
      ]
  parse_snat_stats_row _ = none

  -- A row that does not parse is left out; of two rows with one key the later is kept.
  unfoldable pub collect_rows :
      List (List String) → Dict String SnatRuleStats → Dict String SnatRuleStats
  collect_rows [] result = result
  collect_rows (row ∷ rest) result = collect_rows rest (elim (parse_snat_stats_row row) [
    | none ↦ result
    | some found ↦ insert found.0 found.1 result
  ])

  unfoldable pub stats :
      {T : Type 0} → Iptables T → LinuxManager T → Result (Dict String SnatRuleStats)
  stats ops m =
      in_context "failed to get stats for chain" (ops.stats nat_table snat_chain m.ipt) >>= λ rows.
      ok (collect_rows rows [])
