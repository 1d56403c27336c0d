-- ===== src/Lvs/Destinations/Converge.antt =====
-- reconcileDestinations of pkg/lvs/reconciler.go over the in-memory handle.
use fast_vip.Prelude.{
  refl, ◌∷◌, or_else, insert, lookup-insert, true, List, [], map, Option, none, some, ◌≡◌, sym, ◌∙◌,
  ap, subst, if◌then◌else◌, ◌==◌, int_eq, Dict, lookup, is_some, IsUnique, insert-lookup_self,
  lookup-insert_self, Every, Every-empty, MapRange, ok, arith,
}
use fast_vip.Net.{Net}
use fast_vip.Lvs.{Service, Destination}
use fast_vip.Lvs.Keys.{
  ServiceKey, DestinationKey, destination_key_eq, service_key_eq, service_key_from_ipvs,
  destination_key_from_ipvs, KeyedBy,
}
use fast_vip.Lvs.Fake.{FakeHandle, fake_handle, get_destinations, clone_destination}
use fast_vip.Lvs.Manager
use fast_vip.Lvs.Destinations.{
  Failure, destination_map, reconcile_destinations, sync_destinations, drop_destinations, join,
}
use fast_vip.Lvs.Destinations.Diff.{
  Dests, sync_all, drop_all, lookup-sync_all, lookup-drop_all, sync_all-IsUnique, drop_all-IsUnique,
}
use fast_vip.Lvs.Destinations.Loops.{
  at, sync_destinations-at, drop_destinations-at, destination_map-IsUnique, destination_map-Every,
  lookup-destination_map,
}

-- What stands under a key after a pass, by what is wanted there and what was there: an entry whose
-- weight is right is kept as it is.
abbrev pub settled : Option Destination → Option Destination → Option Destination
settled none old = none
settled (some d) none = some d
settled (some d) (some old) = if old.weight == d.weight then some old else some d

-- The last of the wanted destinations with a key.
unfoldable pub last_wanted : Net → DestinationKey → List Destination → Option Destination
last_wanted net j [] = none
last_wanted net j (d ∷ rest) =
    or_else (last_wanted net j rest) (if destination_key_from_ipvs net d == j then some d else none)

lookup-wanted :
    (net : Net) (j : DestinationKey) (dsts : List Destination) (acc : Dests)
    → lookup j (destination_map net dsts acc) ≡ or_else (last_wanted net j dsts) (lookup j acc)
unfolding destination_map last_wanted
lookup-wanted net j [] acc = refl
lookup-wanted net j (d ∷ rest) acc =
    let key = destination_key_from_ipvs net d in
    ground (arith, lookup-wanted net j rest (insert key d acc), lookup-insert key j d acc)

module _ (net : Net) (rng : MapRange) where
  abbrev wanted_map : List Destination → Dests
  wanted_map wanted = destination_map net wanted []

  abbrev actual_dests : Dests → Dests
  actual_dests m =
      destination_map net
        (map (λ e. clone_destination e.1) (rng.order DestinationKey Destination m)) []

  -- The destinations of a service after reconcileDestinations, from those before.
  unfoldable pub settle : List Destination → Dests → Dests
  settle wanted m =
      drop_all (wanted_map wanted) (rng.order DestinationKey Destination (actual_dests m))
        (sync_all (actual_dests m) (rng.order DestinationKey Destination (wanted_map wanted)) m)

  pub settle-IsUnique :
      (wanted : List Destination) (m : Dests) → IsUnique m → IsUnique (settle wanted m)
  unfolding settle
  settle-IsUnique wanted m u = drop_all-IsUnique _ _ _ (sync_all-IsUnique _ _ m u)

  module _ (wanted : List Destination) (m : Dests) (u : IsUnique m)
      (w : Every (KeyedBy net) m) where
    order-Every :
        (es : Dests)
        → IsUnique es
        → Every (KeyedBy net) es
        → Every (KeyedBy net) (rng.order DestinationKey Destination es)
    order-Every es ue we k d found =
        we k d (sym (rng.lookup-order DestinationKey Destination k es ue) ∙ found)

    lookup-actual : (j : DestinationKey) → lookup j (actual_dests m) ≡ lookup j m
    unfolding lookup
    lookup-actual j = ground (
      arith,
      lookup-destination_map net (rng.order DestinationKey Destination m) [] j
          (rng.order-IsUnique DestinationKey Destination m u) (order-Every m u w),
      rng.lookup-order DestinationKey Destination j m u,
    )

    pub lookup-settle :
        (j : DestinationKey)
        → lookup j (settle wanted m) ≡ settled (lookup j (wanted_map wanted)) (lookup j m)
    unfolding settle
    lookup-settle j =
        let uw = destination_map-IsUnique net wanted [] tt in
        let ua =
          destination_map-IsUnique net
            (map (λ e. clone_destination e.1) (rng.order DestinationKey Destination m)) [] tt in
        ground (
          arith,
          lookup-drop_all (wanted_map wanted)
              (rng.order DestinationKey Destination (actual_dests m))
              (sync_all (actual_dests m) (rng.order DestinationKey Destination (wanted_map wanted))
                m)
              j,
          lookup-sync_all (actual_dests m)
              (rng.order DestinationKey Destination (wanted_map wanted)) m j
              (rng.order-IsUnique DestinationKey Destination (wanted_map wanted) uw),
          rng.lookup-order DestinationKey Destination j (actual_dests m) ua,
          rng.lookup-order DestinationKey Destination j (wanted_map wanted) uw,
          lookup-actual j,
        )

    wanted_at :
        (j : DestinationKey)
        → lookup j (settle wanted m) ≡ settled (last_wanted net j wanted) (lookup j m)
    unfolding lookup
    wanted_at j = ground (arith, lookup-settle j, lookup-wanted net j wanted [])

    pub settle-Every : Every (KeyedBy net) (settle wanted m)
    settle-Every j d found = ground (
      arith,
      lookup-settle j,
      w j d,
      destination_map-Every net wanted [] (Every-empty (KeyedBy net)) j d,
    )

  module _ (svc : Service) (wanted : List Destination) (h : FakeHandle) (m : Dests) where
    pass-at :
        IsUnique m
        → Every (KeyedBy net) m
        → join (fake_handle net rng) (
            drop_destinations
              (fake_handle net rng)
              svc
              (wanted_map wanted)
              (rng.order DestinationKey Destination (actual_dests m))
              (sync_destinations
                (fake_handle net rng)
                svc
                (actual_dests m)
                (rng.order DestinationKey Destination (wanted_map wanted))
                ([], at net rng svc h m)))
          ≡ (none, at net rng svc h (settle wanted m))
    unfolding settle
    pass-at u w =
        let uw = destination_map-IsUnique net wanted [] tt in
        let ua =
          destination_map-IsUnique net
            (map (λ e. clone_destination e.1) (rng.order DestinationKey Destination m)) [] tt in
        let ww = destination_map-Every net wanted [] (Every-empty (KeyedBy net)) in
        let wa =
          destination_map-Every net
            (map (λ e. clone_destination e.1) (rng.order DestinationKey Destination m)) []
            (Every-empty (KeyedBy net)) in
        rw
          (sync_destinations-at net rng svc h (actual_dests m)
            (rng.order DestinationKey Destination (wanted_map wanted)) [] m
            (rng.order-IsUnique DestinationKey Destination (wanted_map wanted) uw)
            (order-Every wanted m u w (wanted_map wanted) uw ww)
            (λ j _. lookup-actual wanted m u w j))
          (rw (
            drop_destinations-at net rng svc h (wanted_map wanted)
              (rng.order DestinationKey Destination (actual_dests m)) []
              (sync_all (actual_dests m) (rng.order DestinationKey Destination (wanted_map wanted))
                m)
              (rng.order-IsUnique DestinationKey Destination (actual_dests m) ua)
              (order-Every wanted m u w (actual_dests m) ua wa)
              (λ j p. ground (
                arith,
                rng.lookup-order DestinationKey Destination j (actual_dests m) ua,
                lookup-actual wanted m u w j,
                lookup-sync_all (actual_dests m)
                    (rng.order DestinationKey Destination (wanted_map wanted)) m j
                    (rng.order-IsUnique DestinationKey Destination (wanted_map wanted) uw),
              ))))

    read_found :
        lookup (service_key_from_ipvs net svc) h.destinations ≡ some m
        → Manager.get_destinations (fake_handle net rng) svc h
          ≡ ok (map (λ e. clone_destination e.1) (rng.order DestinationKey Destination m))
    unfolding Manager.get_destinations get_destinations
    read_found found = ground arith

    -- On a service that the in-memory handle has, with its destinations under their own keys,
    -- reconcileDestinations succeeds and replaces the destinations of that service by those
    -- settled on; nothing else changes.
    pub reconcile_destinations-fake :
        lookup (service_key_from_ipvs net svc) h.destinations ≡ some m
        → IsUnique m
        → Every (KeyedBy net) m
        → reconcile_destinations (fake_handle net rng) net rng svc wanted h
          ≡ (none, at net rng svc h (settle wanted m))
    unfolding reconcile_destinations
    reconcile_destinations-fake found u w =
        rw (read_found found, reconcile_destinations)
          (subst
            (λ (x : FakeHandle).
              join (fake_handle net rng) (
                drop_destinations (fake_handle net rng) svc (wanted_map wanted)
                  (rng.order DestinationKey Destination (actual_dests m))
                  (sync_destinations (fake_handle net rng) svc (actual_dests m)
                    (rng.order DestinationKey Destination (wanted_map wanted)) ([], x)))
              ≡ (none, at net rng svc h (settle wanted m)))
            (ap (λ (ds : Dict ServiceKey Dests). record h { destinations = ds })
              (insert-lookup_self (service_key_from_ipvs net svc) m h.destinations found))
            (pass-at u w))

    -- On a service that the in-memory handle has, with its destinations under their own keys,
    -- reconcileDestinations returns no error and leaves under each key just the wanted
    -- destination, where one that was there with the wanted weight stays as it was; of two wanted
    -- ones with one key it is the last.
    pub reconcile_destinations-settled :
        lookup (service_key_from_ipvs net svc) h.destinations ≡ some m
        → IsUnique m
        → Every (KeyedBy net) m
        → let done = reconcile_destinations (fake_handle net rng) net rng svc wanted h in
          (done.0 ≡ none)
          × ((after : Dests) × (lookup (service_key_from_ipvs net svc) done.1.destinations
                ≡ some after)
              × ((j : DestinationKey)
                  → lookup j after ≡ settled (last_wanted net j wanted) (lookup j m)))
    reconcile_destinations-settled found u w =
        let e = reconcile_destinations-fake found u w in
        (
          ap (λ (x : Option Failure × FakeHandle). x.0) e,
          (
            settle wanted m,
            ap
                  (λ (x : Option Failure × FakeHandle).
                    lookup (service_key_from_ipvs net svc) x.1.destinations)
                  e
                ∙ lookup-insert_self (service_key_from_ipvs net svc) (settle wanted m)
                    h.destinations,
            λ j. wanted_at wanted m u w j,
          ),
        )

  -- A service that the handle does not have is an error.
  pub reconcile_destinations-missing :
      (svc : Service) (wanted : List Destination) (h : FakeHandle)
      → lookup (service_key_from_ipvs net svc) h.destinations ≡ none
      → is_some (reconcile_destinations (fake_handle net rng) net rng svc wanted h).0 ≡ true
  unfolding reconcile_destinations Manager.get_destinations get_destinations
  reconcile_destinations-missing svc wanted h missing = ground arith
