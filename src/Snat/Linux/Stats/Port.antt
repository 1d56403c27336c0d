-- ===== src/Snat/Linux/Stats/Port.antt =====
-- The destination port of a row of iptables, pkg/snat/stats_parse.go.
use Prim.Native.String.{String, [], ◌∷◌, len}
use Prim.Native.String.len
use fast_vip.Prelude.{
  ◌<◌, ap, Bool-cases, inl, inr, false, none, some, ◌==◌, string_eq, starts_with, ◌^^◌, ◌≡◌, arith,
  subst, ==_iff,
}
use text.Mathlib.TextPositions.{len_utf8-pos, len-append, starts_with-append, slice-append_right}
use fast_vip.Snat.Linux.Stats.{folded_dport, trim_prefix}

-- A text that is not empty has bytes.
len-nonempty : (s : String) → (s == "") ≡ false → 0 < len s
len-nonempty [] h = absurd (ground (arith, ==_iff {K = String} "" "", h))
len-nonempty (c ∷ s) h = let (k, e) = len_utf8-pos c in omega (arith, len.cons c s, e)

abbrev pub dport : String → String
dport port = "dpt:" ^^ port

longer : (port : String) → (port == "") ≡ false → 4 < len (dport port)
longer port h = omega (arith, len-nonempty port h, len-append "dpt:" port)

pub dport-apart : (port : String) → (port == "") ≡ false → (dport port == "dpt:") ≡ false
dport-apart port h = elim (Bool-cases (dport port == "dpt:")) [
  | inr e ↦ e
  | inl e ↦ absurd (omega (arith, longer port h, ap len ((==_iff (dport port) "dpt:").0 e)))
]

pub trim-dport : (port : String) → trim_prefix (dport port) "dpt:" ≡ port
unfolding trim_prefix
trim-dport port =
    rw (starts_with-append "dpt:" port, len-append "dpt:" port) (slice-append_right "dpt:" port)

pub folded_dport-append :
    (port : String) → (port == "") ≡ false → folded_dport (dport port) ≡ some port
folded_dport-append port h =
    ground (arith, longer port h, trim-dport port, starts_with-append "dpt:" port)

-- A token that does not start a port is not one.
pub token-apart :
    (token : String)
    → starts_with token "dpt:" ≡ false
    → ((token == "dpt:") ≡ false) × (folded_dport token ≡ none)
token-apart token h = elim (Bool-cases (token == "dpt:")) [
  | inr e ↦ (e, ground (arith, h))
  | inl e ↦
      absurd
        (ground (arith, subst (λ s. starts_with s "dpt:" ≡ false) ((==_iff token "dpt:").0 e) h))
]
