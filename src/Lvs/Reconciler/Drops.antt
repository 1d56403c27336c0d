-- ===== src/Lvs/Reconciler/Drops.antt =====
-- The loop that deletes services, and what stands under each key after both loops.
use fast_vip.Prelude.{
  true, List, [], ◌∷◌, ◌≡◌, refl, if◌then◌else◌, Dict, lookup, erase, is_some, IsUnique,
  lookup-erase, lookup-tail, lookup-cons_self, MapRange, Every, Every-head, Every-tail, arith,
}
use fast_vip.Net.{Net}
use fast_vip.Lvs.{Service}
use fast_vip.Lvs.Keys.{ServiceKey, destination_key_eq, service_key_eq, ServiceKeyedBy}
use fast_vip.Lvs.Fake.{FakeHandle, fake_handle, del_service}
use fast_vip.Lvs.Fake.WellFormed.{IsWellFormed, erase-IsWellFormed}
use fast_vip.Lvs.Manager
use fast_vip.Lvs.Destinations.{Failure}
use fast_vip.Lvs.Reconciler.{Reconciler, drop_service, drop_services}
use fast_vip.Lvs.Reconciler.Services.{sync_handle, sync_handle-IsWellFormed}
use fast_vip.Lvs.Reconciler.Loops.{
  Desired, Canonical, PresentIn, unmark, drop_handle, drop_handles, sync_handles,
}

module _ (net : Net) (rng : MapRange) where
  drop_handle-PresentIn :
      (desired : Desired) (es : Dict ServiceKey Service) (k : ServiceKey) (s : Service)
      (h : FakeHandle)
      → IsUnique ((k, s) ∷ es)
      → PresentIn ((k, s) ∷ es) h
      → PresentIn es (drop_handle desired k h)
  unfolding drop_handle
  drop_handle-PresentIn desired es k s h u p j q =
      ground (arith, lookup-tail k j s es u, p j, lookup-erase k j h.services)

  drop_handle-IsWellFormed :
      (desired : Desired) (k : ServiceKey) (h : FakeHandle)
      → IsWellFormed net h
      → IsWellFormed net (drop_handle desired k h)
  unfolding drop_handle
  drop_handle-IsWellFormed desired k h w = ground (arith, erase-IsWellFormed net k h w)

  pub drop_handles-IsWellFormed :
      (desired : Desired) (es : Dict ServiceKey Service) (h : FakeHandle)
      → IsWellFormed net h
      → IsWellFormed net (drop_handles desired es h)
  unfolding drop_handles
  drop_handles-IsWellFormed desired [] h w = w
  drop_handles-IsWellFormed desired ((k, s) ∷ es) h w =
      drop_handles-IsWellFormed desired es (drop_handle desired k h)
        (drop_handle-IsWellFormed desired k h w)

  pub sync_handles-IsWellFormed :
      (es : Desired) (h : FakeHandle)
      → IsUnique es
      → Every (Canonical net) es
      → IsWellFormed net h
      → IsWellFormed net (sync_handles net rng es h)
  unfolding sync_handles
  sync_handles-IsWellFormed [] h u ca w = w
  sync_handles-IsWellFormed ((k, d) ∷ es) h u ca w =
      sync_handles-IsWellFormed es (sync_handle net rng k d h) u.1
        (Every-tail (Canonical net) k d es u ca)
        (sync_handle-IsWellFormed net rng k d h (Every-head (Canonical net) k d es ca) w)

  module _ {S : Type 0} where
    drop_service-fake :
        (desired : Desired) (k : ServiceKey) (s : Service) (errs : List Failure)
        (r : Reconciler FakeHandle S)
        → ServiceKeyedBy net k s
        → is_some (lookup k r.manager.services) ≡ true
        → drop_service net rng (fake_handle net rng) desired k s (errs, r) ≡ (
          errs,
          record r {
            manager = drop_handle desired k r.manager;
            managed = if is_some (lookup k desired) then r.managed else erase k r.managed;
          },
        )
    unfolding drop_service drop_handle Manager.delete_service del_service
    drop_service-fake desired k s errs r e p = ground arith

    -- The second loop: no error, every service that is not wanted deleted and forgotten.
    pub drop_services-fake :
        (desired : Desired) (es : Dict ServiceKey Service) (errs : List Failure)
        (r : Reconciler FakeHandle S)
        → IsUnique es
        → Every (ServiceKeyedBy net) es
        → PresentIn es r.manager
        → drop_services net rng (fake_handle net rng) desired es (errs, r) ≡ (
          errs,
          record r {
            manager = drop_handles desired es r.manager;
            managed = unmark desired es r.managed;
          },
        )
    unfolding drop_services drop_handles unmark
    drop_services-fake desired [] errs r u w p = refl
    drop_services-fake desired ((k, s) ∷ es) errs r u w p =
        rw
          (drop_service-fake desired k s errs r (Every-head (ServiceKeyedBy net) k s es w)
            (p k (rw (lookup-cons_self k s es))))
          (drop_services-fake desired es errs
            (record r {
              manager = drop_handle desired k r.manager;
              managed = if is_some (lookup k desired) then r.managed else erase k r.managed;
            })
            u.1 (Every-tail (ServiceKeyedBy net) k s es u w)
            (drop_handle-PresentIn desired es k s r.manager u p))
