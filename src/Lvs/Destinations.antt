-- ===== src/Lvs/Destinations.antt =====
-- pkg/lvs/reconciler.go: reconcileDestinations, the diff of one service's destinations, over any
-- IPVS handle.
pub mod Diff
pub mod Loops
pub mod Converge
use fast_vip.Prelude.{
  ℕ, ◌+◌, String, Bool, true, false, ◌&&◌, ◌||◌, not, List, [], ◌∷◌, ◌++◌, Option, none, some,
  if◌then◌else◌, ◌==◌, string_eq, int_eq, length, Dict, lookup, insert, erase, is_some, MapRange,
  Error, wrap, Result, ok, err, ◌>>=◌, in_context, or_error, to_uint16,
}
use fast_vip.Net.{Net}
use fast_vip.Config.{ServiceConfig, BackendConfig}
use fast_vip.Config.Defaults.{is_enabled}
use fast_vip.Snat.{SnatRule, ForwardRule, SnatManager}
use fast_vip.Lvs.{Service, Destination}
use fast_vip.Lvs.Keys.{
  ServiceKey, DestinationKey, service_key_eq, destination_key_eq, service_key_from_config,
  service_key_from_ipvs, destination_key_from_ipvs, config_to_ipvs_service,
  config_to_ipvs_destination,
}
use fast_vip.Lvs.Handle.{IpvsHandle}
use fast_vip.Lvs.Manager

-- The error that one service's destinations give: one, or several joined.
pub data Failure : Type 0 where
  single : Error → Failure
  joined : List Error → Failure

unfoldable pub destination_map :
    Net → List Destination → Dict DestinationKey Destination → Dict DestinationKey Destination
destination_map net [] acc = acc
destination_map net (dst ∷ rest) acc =
    destination_map net rest (insert (destination_key_from_ipvs net dst) dst acc)

-- `if err != nil { errs = append(errs, ...) }`
abbrev pub note : String → Option Error → List Error → List Error
note text none errs = errs
note text (some e) errs = errs ++ wrap text e ∷ []

module _ {H : Type 0} (ops : IpvsHandle H) where
  unfoldable pub sync_destination :
      Service
      → Dict DestinationKey Destination
      → DestinationKey
      → Destination
      → List Error × H
      → List Error × H
  sync_destination svc actual key dst (errs, h) = elim (lookup key actual) [
    | none ↦
        let (e, h') = Manager.create_destination ops svc dst h in
        (note "create destination" e errs, h')
    | some old ↦
        if old.weight == dst.weight
        then (errs, h)
        else (let (e, h') = Manager.update_destination ops svc dst h in
            (note "update destination" e errs, h'))
  ]

  unfoldable pub sync_destinations :
      Service
      → Dict DestinationKey Destination
      → Dict DestinationKey Destination
      → List Error × H
      → List Error × H
  sync_destinations svc actual [] s = s
  sync_destinations svc actual ((key, dst) ∷ rest) s =
      sync_destinations svc actual rest (sync_destination svc actual key dst s)

  unfoldable pub drop_destination :
      Service
      → Dict DestinationKey Destination
      → DestinationKey
      → Destination
      → List Error × H
      → List Error × H
  drop_destination svc desired key dst (errs, h) =
      if is_some (lookup key desired)
      then (errs, h)
      else (let (e, h') = Manager.delete_destination ops svc dst h in
          (note "delete destination" e errs, h'))

  unfoldable pub drop_destinations :
      Service
      → Dict DestinationKey Destination
      → Dict DestinationKey Destination
      → List Error × H
      → List Error × H
  drop_destinations svc desired [] s = s
  drop_destinations svc desired ((key, dst) ∷ rest) s =
      drop_destinations svc desired rest (drop_destination svc desired key dst s)

  abbrev pub join : List Error × H → Option Failure × H
  join ([], h) = (none, h)
  join (e ∷ errs, h) = (some (joined (e ∷ errs)), h)

  -- The destinations that are there; those that are wanted; first what is missing or has another
  -- weight, then what is not wanted.
  unfoldable pub reconcile_destinations :
      Net → MapRange → Service → List Destination → H → Option Failure × H
  reconcile_destinations net rng svc wanted h =
      let actual = Manager.get_destinations ops svc h in
      elim actual [
        | err e ↦ (some (single (wrap "get destinations" e)), h)
        | ok dsts ↦
            let actual_dests = destination_map net dsts [] in
            let desired_dests = destination_map net wanted [] in
            join (
              drop_destinations svc desired_dests
                (rng.order DestinationKey Destination actual_dests)
                (sync_destinations svc actual_dests
                  (rng.order DestinationKey Destination desired_dests) ([], h)))
      ]
