-- ===== src/Snat/Linux/Stats/Prefix.antt =====
-- An address with its prefix length, as go-iptables gives it in a row for pkg/snat/stats_parse.go.
use Prim.Native.Char.{code}
use Prim.Native.String.{String, ◌++◌}
use Prim.Native.String.append
use text.Mathlib.TextLemmas.{
  append_assoc, append_cancel_left, append-ne-nil_of_right_ne-nil, cons≢nil, head-eq_of_cons-eq,
}
use fast_vip.Prelude.{
  false, ◌==◌, string_eq, ==_iff, Bool-cases, inl, inr, arith, ◌≡◌, ◌≢◌, ap, sym, ◌∙◌,
}

pub prefix-shown : (ip : String) → (ip ++ "/32" == "") ≡ false
prefix-shown ip = elim (Bool-cases (ip ++ "/32" == "")) [
  | inr e ↦ e
  | inl e ↦
      absurd (append-ne-nil_of_right_ne-nil ip (λ n. cons≢nil n) ((==_iff (ip ++ "/32") "").0 e))
]

-- A text that goes on after the prefix length is none that goes on after the address.
pub prefix-apart : (ip s t : String) → (ip ++ "/32") ++ (":" ++ s) ≢ ip ++ (":" ++ t)
prefix-apart ip s t e =
    let cut : "/32" ++ (":" ++ s) ≡ ":" ++ t =
      append_cancel_left ip ("/32" ++ (":" ++ s)) (":" ++ t)
        (sym (append_assoc ip "/32" (":" ++ s)) ∙ e) in
    let heads =
      head-eq_of_cons-eq (sym (append.cons "/" "32" (":" ++ s)) ∙ cut ∙ append.cons ":" "" t) in
    let codes : code "/" ≡ code ":" = ap code heads in absurd (ground (arith, codes))
