-- ===== src/Prelude/Maps.antt =====
-- Go maps as association lists. A write replaces in place or goes to the end; every law is about
-- `lookup`, since the language leaves the order of a map open.
use mathlib.Core.Path.{◌≡◌, refl}
use mathlib.Core.Bool.{Bool, true, false}
use mathlib.Core.List.{List, [], ◌∷◌}
use mathlib.Core.Option.{Option, none, some}
use native.Mathlib.Omega.{arith}
use fast_vip.Prelude.Tests.{if◌then◌else◌}
use fast_vip.Prelude.Classes.{Eq, ◌==◌, ==_iff}

abbrev pub Dict : Type 0 → Type 0 → Type 0
Dict K V = List (K × V)

abbrev pub is_some {ℓ} : {A : Type ℓ} → Option A → Bool
is_some none = false
is_some (some a) = true

abbrev pub or_else {ℓ} : {A : Type ℓ} → Option A → Option A → Option A
or_else none b = b
or_else (some a) b = some a

module _ {K V : Type 0} ⦃e : Eq K⦄ where
  unfoldable pub lookup : K → Dict K V → Option V
  lookup key [] = none
  lookup key ((first, val) ∷ others) = if first == key then some val else lookup key others

  unfoldable pub erase : K → Dict K V → Dict K V
  erase key [] = []
  erase key ((first, val) ∷ others) =
      let kept = erase key others in if first == key then kept else (first, val) ∷ kept

  unfoldable pub insert : K → V → Dict K V → Dict K V
  insert key val [] = (key, val) ∷ []
  insert key val ((first, old) ∷ others) =
      if first == key then (key, val) ∷ others else (first, old) ∷ insert key val others

  -- No key stands twice.
  abbrev pub IsUnique : Dict K V → Type 0
  IsUnique [] = Unit
  IsUnique ((k, v) ∷ m) = (lookup k m ≡ none) × IsUnique m

  pub lookup-erase :
      (k j : K) (others : Dict K V)
      → lookup j (erase k others) ≡ (if k == j then none else lookup j others)
  unfolding lookup erase
  lookup-erase k j [] = ground arith
  lookup-erase k j ((first, val) ∷ others) =
      ground (arith, ==_iff k j, ==_iff first k, ==_iff first j, lookup-erase k j others)

  pub lookup-insert :
      (k j : K) (val : V) (others : Dict K V)
      → lookup j (insert k val others) ≡ (if k == j then some val else lookup j others)
  unfolding lookup insert
  lookup-insert k j val [] = refl
  lookup-insert k j val ((first, old) ∷ others) =
      ground (arith, ==_iff k j, ==_iff first k, ==_iff first j, lookup-insert k j val others)

  pub insert-IsUnique : (k : K) (v : V) (m : Dict K V) → IsUnique m → IsUnique (insert k v m)
  unfolding lookup insert
  insert-IsUnique k v [] u = (refl, tt)
  insert-IsUnique k v ((i, w) ∷ m) u =
      ground (arith, ==_iff k i, ==_iff i k, lookup-insert k i v m, insert-IsUnique k v m u.1)

  pub erase-IsUnique : (k : K) (m : Dict K V) → IsUnique m → IsUnique (erase k m)
  unfolding lookup erase
  erase-IsUnique k [] u = tt
  erase-IsUnique k ((i, w) ∷ m) u =
      ground (arith, ==_iff k i, ==_iff i k, lookup-erase k i m, erase-IsUnique k m u.1)

  pub insert-insert : (k : K) (v w : V) (m : Dict K V) → insert k v (insert k w m) ≡ insert k v m
  unfolding insert
  insert-insert k v w [] = ground (arith, ==_iff k k)
  insert-insert k v w ((i, x) ∷ m) = ground (arith, ==_iff k k, insert-insert k v w m)

  pub insert-lookup_self : (k : K) (v : V) (m : Dict K V) → lookup k m ≡ some v → insert k v m ≡ m
  unfolding insert lookup
  insert-lookup_self k v [] h = ground arith
  insert-lookup_self k v ((i, x) ∷ m) h = ground (arith, ==_iff i k, insert-lookup_self k v m)

  pub lookup-insert_self : (k : K) (v : V) (m : Dict K V) → lookup k (insert k v m) ≡ some v
  lookup-insert_self k v m = ground (arith, lookup-insert k k v m, ==_iff k k)
