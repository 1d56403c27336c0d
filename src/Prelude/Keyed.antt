-- ===== src/Prelude/Keyed.antt =====
-- Maps whose keys are computed from their values, and the entries of a map one by one.
use mathlib.Core.Path.{◌≡◌}
use mathlib.Core.Bool.{true, false}
use mathlib.Core.List.{[], ◌∷◌}
use mathlib.Core.Option.{some}
use native.Mathlib.Omega.{arith}
use fast_vip.Prelude.Classes.{Eq, ◌==◌, ==_iff}
use fast_vip.Prelude.Maps.{
  Dict, lookup, insert, erase, is_some, IsUnique, lookup-insert, lookup-erase,
}

module _ {K V : Type 0} ⦃e : Eq K⦄ where
  pub lookup-cons_self : (k : K) (v : V) (m : Dict K V) → lookup k ((k, v) ∷ m) ≡ some v
  unfolding lookup
  lookup-cons_self k v m = ground (arith, ==_iff k k)

  -- An entry of the rest is an entry of the whole, under another key than the first.
  pub lookup-tail :
      (k j : K) (v : V) (m : Dict K V)
      → IsUnique ((k, v) ∷ m)
      → is_some (lookup j m) ≡ true
      → (lookup j ((k, v) ∷ m) ≡ lookup j m) × ((k == j) ≡ false)
  unfolding lookup
  lookup-tail k j v m u h = ground (arith, ==_iff k j)

  -- What holds of every entry, stated by `lookup`.
  abbrev pub Every : (K → V → Type 0) → Dict K V → Type 0
  Every P m = (k : K) (v : V) → lookup k m ≡ some v → P k v

  pub Every-head :
      (P : K → V → Type 0) (k : K) (v : V) (m : Dict K V) → Every P ((k, v) ∷ m) → P k v
  Every-head P k v m h = h k v (lookup-cons_self k v m)

  pub Every-tail :
      (P : K → V → Type 0) (k : K) (v : V) (m : Dict K V)
      → IsUnique ((k, v) ∷ m)
      → Every P ((k, v) ∷ m)
      → Every P m
  Every-tail P k v m u h j w found = h j w (ground (arith, lookup-tail k j v m u))

  pub insert-Every :
      (P : K → V → Type 0) (k : K) (v : V) (m : Dict K V)
      → P k v
      → Every P m
      → Every P (insert k v m)
  insert-Every P k v m p h j w found = ground (arith, lookup-insert k j v m, ==_iff k j, h j w)

  pub erase-Every : (P : K → V → Type 0) (k : K) (m : Dict K V) → Every P m → Every P (erase k m)
  erase-Every P k m h j w found = ground (arith, lookup-erase k j m, h j w)

  pub Every-empty : (P : K → V → Type 0) → Every P []
  unfolding lookup
  Every-empty P k v found = absurd (ground arith)
