-- ===== src/Prelude/Range.antt =====
-- What `for key, value := range m` promises of the language's runtime: each entry is visited once,
-- in an order that the language leaves open. The program's loops take the order as a parameter.
use mathlib.Core.Path.{◌≡◌}
use fast_vip.Prelude.Classes.{Eq}
use fast_vip.Prelude.Maps.{Dict, lookup, IsUnique}

pub record MapRange : Type 1 where
  pub order : (K V : Type 0) → Dict K V → Dict K V
  pub lookup-order :
      (K V : Type 0) ⦃e : Eq K⦄ (k : K) (m : Dict K V)
      → IsUnique m
      → lookup k (order K V m) ≡ lookup k m
  pub order-IsUnique :
      (K V : Type 0) ⦃e : Eq K⦄ (m : Dict K V) → IsUnique m → IsUnique (order K V m)

-- The order in which the keys were first written.
abbrev pub written_order : MapRange
written_order = record {
  order = λ K V m. m;
  lookup-order = λ K V k m u i. lookup k m;
  order-IsUnique = λ K V m u. u;
}
