-- ===== src/Lvs/Destinations/Diff.antt =====
-- The loops of reconcileDestinations over the in-memory handle, as functions of the one map that
-- they change.
use fast_vip.Prelude.{
  true, [], ◌∷◌, none, some, ◌≡◌, refl, if◌then◌else◌, ◌==◌, ==_iff, int_eq, Dict, lookup, insert,
  erase, is_some, IsUnique, lookup-insert, lookup-erase, insert-IsUnique, erase-IsUnique,
  lookup-tail, arith,
}
use fast_vip.Lvs.{Destination}
use fast_vip.Lvs.Keys.{DestinationKey, destination_key_eq, service_key_eq}

abbrev pub Dests : Type 0
Dests = Dict DestinationKey Destination

-- What the loops do to the destinations `m` of the service.
unfoldable pub sync_one : Dests → DestinationKey → Destination → Dests → Dests
sync_one actual key dst m = elim (lookup key actual) [
  | none ↦ insert key dst m
  | some old ↦ if old.weight == dst.weight then m else insert key dst m
]

unfoldable pub sync_all : Dests → Dests → Dests → Dests
sync_all actual [] m = m
sync_all actual ((key, dst) ∷ rest) m = sync_all actual rest (sync_one actual key dst m)

unfoldable pub drop_one : Dests → DestinationKey → Dests → Dests
drop_one desired key m = if is_some (lookup key desired) then m else erase key m

unfoldable pub drop_all : Dests → Dests → Dests → Dests
drop_all desired [] m = m
drop_all desired ((key, dst) ∷ rest) m = drop_all desired rest (drop_one desired key m)

-- The entries of `es` are in `actual` just as they are in `m`.
abbrev pub Agree : Dests → Dests → Dests → Type 0
Agree es actual m =
    (j : DestinationKey) → is_some (lookup j es) ≡ true → lookup j actual ≡ lookup j m

abbrev pub Present : Dests → Dests → Type 0
Present es m = (j : DestinationKey) → is_some (lookup j es) ≡ true → is_some (lookup j m) ≡ true

pub sync_one-Agree :
    (actual es : Dests) (k : DestinationKey) (d : Destination) (m : Dests)
    → IsUnique ((k, d) ∷ es)
    → Agree ((k, d) ∷ es) actual m
    → Agree es actual (sync_one actual k d m)
unfolding sync_one
sync_one-Agree actual es k d m u a j h =
    ground (arith, lookup-tail k j d es u, a j, lookup-insert k j d m)

pub drop_one-Present :
    (desired es : Dests) (k : DestinationKey) (d : Destination) (m : Dests)
    → IsUnique ((k, d) ∷ es)
    → Present ((k, d) ∷ es) m
    → Present es (drop_one desired k m)
unfolding drop_one
drop_one-Present desired es k d m u p j h =
    ground (arith, lookup-tail k j d es u, p j, lookup-erase k j m)

-- The value under a key after each loop.
pub lookup-sync_all :
    (actual es m : Dests) (j : DestinationKey)
    → IsUnique es
    → lookup j (sync_all actual es m) ≡ elim (lookup j es) [
      | none ↦ lookup j m
      | some d ↦ elim (lookup j actual) [
        | none ↦ some d
        | some old ↦ if old.weight == d.weight then lookup j m else some d
      ]
    ]
unfolding sync_all sync_one lookup
lookup-sync_all actual [] m j u = refl
lookup-sync_all actual ((k, d) ∷ es) m j u = ground (
  arith,
  lookup-sync_all actual es (sync_one actual k d m) j u.1,
  lookup-insert k j d m,
  ==_iff k j,
)

pub lookup-drop_all :
    (desired es m : Dests) (j : DestinationKey)
    → lookup j (drop_all desired es m) ≡ (
        if is_some (lookup j desired)
        then lookup j m
        else if is_some (lookup j es)
        then none
        else lookup j m)
unfolding drop_all drop_one lookup
lookup-drop_all desired [] m j = ground arith
lookup-drop_all desired ((k, d) ∷ es) m j =
    ground
      (arith, lookup-drop_all desired es (drop_one desired k m) j, lookup-erase k j m, ==_iff k j)

pub sync_all-IsUnique : (actual es m : Dests) → IsUnique m → IsUnique (sync_all actual es m)
unfolding sync_all sync_one
sync_all-IsUnique actual [] m u = u
sync_all-IsUnique actual ((k, d) ∷ es) m u =
    sync_all-IsUnique actual es _ (ground (arith, insert-IsUnique k d m u))

pub drop_all-IsUnique : (desired es m : Dests) → IsUnique m → IsUnique (drop_all desired es m)
unfolding drop_all drop_one
drop_all-IsUnique desired [] m u = u
drop_all-IsUnique desired ((k, d) ∷ es) m u =
    drop_all-IsUnique desired es _ (ground (arith, erase-IsUnique k m u))
