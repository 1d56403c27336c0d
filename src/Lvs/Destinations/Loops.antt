-- ===== src/Lvs/Destinations/Loops.antt =====
-- The loops of reconcileDestinations, pkg/lvs/reconciler.go, on the in-memory handle, and the maps
-- that the reconciler builds from lists of destinations.
use fast_vip.Prelude.{
  true, List, [], ◌∷◌, map, ◌≡◌, refl, ==_iff, int_eq, lookup, insert, erase, is_some, IsUnique,
  lookup-insert, insert-insert, insert-IsUnique, lookup-cons_self, Every, Every-head, Every-tail,
  insert-Every, MapRange, or_else, Error, arith,
}
use fast_vip.Net.{Net}
use fast_vip.Lvs.{Service, Destination}
use fast_vip.Lvs.Keys.{
  DestinationKey, destination_key_eq, service_key_eq, service_key_from_ipvs,
  destination_key_from_ipvs, KeyedBy,
}
use fast_vip.Lvs.Fake.{
  FakeHandle, fake_handle, put_destinations, new_destination, update_destination, del_destination,
  clone_destination,
}
use fast_vip.Lvs.Manager
use fast_vip.Lvs.Destinations.{
  destination_map, sync_destination, sync_destinations, drop_destination, drop_destinations,
}
use fast_vip.Lvs.Destinations.Diff.{
  Dests, sync_one, sync_all, drop_one, drop_all, Agree, Present, sync_one-Agree, drop_one-Present,
}

module _ (net : Net) (rng : MapRange) (svc : Service) (h : FakeHandle) where
  abbrev pub at : Dests → FakeHandle
  at m = put_destinations net rng (service_key_from_ipvs net svc) m h

  sync_destination-at :
      (actual : Dests) (k : DestinationKey) (d : Destination) (errs : List Error) (m : Dests)
      → destination_key_from_ipvs net d ≡ k
      → lookup k actual ≡ lookup k m
      → sync_destination (fake_handle net rng) svc actual k d (errs, at m)
        ≡ (errs, at (sync_one actual k d m))
  unfolding sync_destination sync_one Manager.create_destination Manager.update_destination
      new_destination update_destination
  sync_destination-at actual k d errs m e a =
      let key = service_key_from_ipvs net svc in
      ground (
        arith,
        lookup-insert key key m h.destinations,
        ==_iff key key,
        insert-insert key (insert k d m) m h.destinations,
      )

  drop_destination-at :
      (desired : Dests) (k : DestinationKey) (d : Destination) (errs : List Error) (m : Dests)
      → destination_key_from_ipvs net d ≡ k
      → is_some (lookup k m) ≡ true
      → drop_destination (fake_handle net rng) svc desired k d (errs, at m)
        ≡ (errs, at (drop_one desired k m))
  unfolding drop_destination drop_one Manager.delete_destination del_destination
  drop_destination-at desired k d errs m e p =
      let key = service_key_from_ipvs net svc in
      ground (
        arith,
        lookup-insert key key m h.destinations,
        ==_iff key key,
        insert-insert key (erase k m) m h.destinations,
      )

  pub sync_destinations-at :
      (actual es : Dests) (errs : List Error) (m : Dests)
      → IsUnique es
      → Every (KeyedBy net) es
      → Agree es actual m
      → sync_destinations (fake_handle net rng) svc actual es (errs, at m)
        ≡ (errs, at (sync_all actual es m))
  unfolding sync_destinations sync_all
  sync_destinations-at actual [] errs m u w a = refl
  sync_destinations-at actual ((k, d) ∷ es) errs m u w a =
      rw
        (sync_destination-at actual k d errs m (Every-head (KeyedBy net) k d es w)
          (a k (rw (lookup-cons_self k d es))))
        (sync_destinations-at actual es errs (sync_one actual k d m) u.1
          (Every-tail (KeyedBy net) k d es u w) (sync_one-Agree actual es k d m u a))

  pub drop_destinations-at :
      (desired es : Dests) (errs : List Error) (m : Dests)
      → IsUnique es
      → Every (KeyedBy net) es
      → Present es m
      → drop_destinations (fake_handle net rng) svc desired es (errs, at m)
        ≡ (errs, at (drop_all desired es m))
  unfolding drop_destinations drop_all
  drop_destinations-at desired [] errs m u w p = refl
  drop_destinations-at desired ((k, d) ∷ es) errs m u w p =
      rw
        (drop_destination-at desired k d errs m (Every-head (KeyedBy net) k d es w)
          (p k (rw (lookup-cons_self k d es))))
        (drop_destinations-at desired es errs (drop_one desired k m) u.1
          (Every-tail (KeyedBy net) k d es u w) (drop_one-Present desired es k d m u p))

-- The maps that the reconciler builds from a list of destinations.
module _ (net : Net) where
  pub destination_map-IsUnique :
      (dsts : List Destination) (acc : Dests)
      → IsUnique acc
      → IsUnique (destination_map net dsts acc)
  unfolding destination_map
  destination_map-IsUnique [] acc u = u
  destination_map-IsUnique (d ∷ dsts) acc u =
      destination_map-IsUnique dsts _ (insert-IsUnique (destination_key_from_ipvs net d) d acc u)

  pub destination_map-Every :
      (dsts : List Destination) (acc : Dests)
      → Every (KeyedBy net) acc
      → Every (KeyedBy net) (destination_map net dsts acc)
  unfolding destination_map
  destination_map-Every [] acc w = w
  destination_map-Every (d ∷ dsts) acc w =
      destination_map-Every dsts _
        (insert-Every (KeyedBy net) (destination_key_from_ipvs net d) d acc refl w)

  -- The clones of a map's values are indexed as the map is.
  pub lookup-destination_map :
      (es acc : Dests) (j : DestinationKey)
      → IsUnique es
      → Every (KeyedBy net) es
      → lookup j (destination_map net (map (λ e. clone_destination e.1) es) acc)
        ≡ or_else (lookup j es) (lookup j acc)
  unfolding destination_map lookup clone_destination
  lookup-destination_map [] acc j u w = refl
  lookup-destination_map ((k, d) ∷ es) acc j u w = ground (
    arith,
    lookup-destination_map es (insert (destination_key_from_ipvs net d) d acc) j u.1
        (Every-tail (KeyedBy net) k d es u w),
    lookup-insert (destination_key_from_ipvs net d) j d acc,
    Every-head (KeyedBy net) k d es w,
    ==_iff k j,
  )
