-- ===== src/Lvs/Reconciler/Loops.antt =====
-- The two loops of a pass over the in-memory handle: what they leave under each key.
use fast_vip.Prelude.{
  Bool, true, false, List, [], ◌∷◌, none, some, ◌≡◌, refl, subst, ◌∙◌, if◌then◌else◌, Dict, lookup,
  insert, erase, is_some, IsUnique, lookup-insert, lookup-tail, lookup-cons_self, Option-cases, inl,
  inr, MapRange, Every, Every-head, Every-tail, arith,
}
use fast_vip.Net.{Net}
use fast_vip.Lvs.{Service}
use fast_vip.Lvs.Keys.{ServiceKey, destination_key_eq, service_key_eq, service_key_from_ipvs}
use fast_vip.Lvs.Fake.{FakeHandle, fake_handle}
use fast_vip.Lvs.Fake.WellFormed.{IsWellFormed}
use fast_vip.Lvs.Desired.{DesiredService}
use fast_vip.Lvs.Destinations.{Failure}
use fast_vip.Lvs.Reconciler.{Reconciler, sync_service, sync_services}
use fast_vip.Lvs.Reconciler.Services.{
  kept_service, sync_handle, sync_handle-IsWellFormed, done, sync_service-new, sync_service-old,
}

abbrev pub Desired : Type 0
Desired = Dict ServiceKey DesiredService

-- The wanted service has the key under which it stands.
abbrev pub Canonical : Net → ServiceKey → DesiredService → Type 0
Canonical net k d = service_key_from_ipvs net d.service ≡ k

abbrev pub AgreeOn : Desired → Dict ServiceKey Service → FakeHandle → Type 0
AgreeOn es actual h =
    (j : ServiceKey) → is_some (lookup j es) ≡ true → lookup j actual ≡ lookup j h.services

abbrev pub PresentIn : Dict ServiceKey Service → FakeHandle → Type 0
PresentIn es h =
    (j : ServiceKey) → is_some (lookup j es) ≡ true → is_some (lookup j h.services) ≡ true

unfoldable pub mark_all : Desired → Dict ServiceKey Bool → Dict ServiceKey Bool
mark_all [] m = m
mark_all ((k, d) ∷ es) m = mark_all es (insert k true m)

unfoldable pub unmark :
    Desired → Dict ServiceKey Service → Dict ServiceKey Bool → Dict ServiceKey Bool
unmark desired [] m = m
unmark desired ((k, s) ∷ es) m =
    unmark desired es (if is_some (lookup k desired) then m else erase k m)

unfoldable pub drop_handle : Desired → ServiceKey → FakeHandle → FakeHandle
drop_handle desired k h =
    if is_some (lookup k desired)
    then h
    else record h { services = erase k h.services; destinations = erase k h.destinations }

unfoldable pub drop_handles : Desired → Dict ServiceKey Service → FakeHandle → FakeHandle
drop_handles desired [] h = h
drop_handles desired ((k, s) ∷ es) h = drop_handles desired es (drop_handle desired k h)

module _ (net : Net) (rng : MapRange) where
  unfoldable pub sync_handles : Desired → FakeHandle → FakeHandle
  sync_handles [] h = h
  sync_handles ((k, d) ∷ es) h = sync_handles es (sync_handle net rng k d h)

  sync_handle-AgreeOn :
      (actual : Dict ServiceKey Service) (es : Desired) (k : ServiceKey) (d : DesiredService)
      (h : FakeHandle)
      → IsUnique ((k, d) ∷ es)
      → AgreeOn ((k, d) ∷ es) actual h
      → AgreeOn es actual (sync_handle net rng k d h)
  unfolding sync_handle
  sync_handle-AgreeOn actual es k d h u a j p = ground (
    arith,
    lookup-tail k j d es u,
    a j,
    lookup-insert k j (kept_service (lookup k h.services) d.service) h.services,
  )

  module _ {S : Type 0} where
    sync_service-fake :
        (actual : Dict ServiceKey Service) (k : ServiceKey) (d : DesiredService)
        (errs : List Failure) (r : Reconciler FakeHandle S)
        → Canonical net k d
        → lookup k actual ≡ lookup k r.manager.services
        → IsWellFormed net r.manager
        → r.manager.closed ≡ false
        → sync_service net rng (fake_handle net rng) actual k d (errs, r)
          ≡ (errs, done net rng k d r)
    sync_service-fake actual k d errs r e a w c =
        elim (Option-cases (lookup k r.manager.services)) [
          | inl x ↦
              subst
                (λ (j : ServiceKey).
                  lookup j actual ≡ none
                  → lookup j r.manager.services ≡ none
                  → lookup j r.manager.destinations ≡ none
                  → sync_service net rng (fake_handle net rng) actual j d (errs, r)
                    ≡ (errs, done net rng j d r))
                e (λ p q s. sync_service-new net rng actual d errs r p q s c) (a ∙ x) x
                (ground (arith, w.paired k))
          | inr (old, x) ↦ elim (Option-cases (lookup k r.manager.destinations)) [
            | inl y ↦ absurd (ground (arith, w.paired k))
            | inr (m, y) ↦
                subst
                  (λ (j : ServiceKey).
                    lookup j actual ≡ some old
                    → lookup j r.manager.services ≡ some old
                    → lookup j r.manager.destinations ≡ some m
                    → sync_service net rng (fake_handle net rng) actual j d (errs, r)
                      ≡ (errs, done net rng j d r))
                  e
                  (λ p q s.
                    sync_service-old net rng actual d errs r old m p q s
                      (w.destinations_keyed k m y))
                  (a ∙ x) x y
          ]
        ]

    -- The first loop: no error, every wanted service synchronised and marked.
    pub sync_services-fake :
        (actual : Dict ServiceKey Service) (es : Desired) (errs : List Failure)
        (r : Reconciler FakeHandle S)
        → IsUnique es
        → Every (Canonical net) es
        → AgreeOn es actual r.manager
        → IsWellFormed net r.manager
        → r.manager.closed ≡ false
        → sync_services net rng (fake_handle net rng) actual es (errs, r) ≡ (
          errs,
          record r { manager = sync_handles es r.manager; managed = mark_all es r.managed },
        )
    unfolding sync_services sync_handles mark_all
    sync_services-fake actual [] errs r u ca a w c = refl
    sync_services-fake actual ((k, d) ∷ es) errs r u ca a w c =
        let e = Every-head (Canonical net) k d es ca in
        rw (sync_service-fake actual k d errs r e (a k (rw (lookup-cons_self k d es))) w c) (
          sync_services-fake actual es errs (done net rng k d r) u.1
            (Every-tail (Canonical net) k d es u ca)
            (sync_handle-AgreeOn actual es k d r.manager u a)
            (sync_handle-IsWellFormed net rng k d r.manager e w) (unfold sync_handle in c))
