-- ===== src/Server/Gauges.antt =====
-- The gauges of the health of the backends that pkg/server/server.go sets.
use fast_vip.Prelude.{
  ℕ, String, Bool, true, false, List, [], ◌∷◌, ◌++◌, Option, none, some, if◌then◌else◌, ==_iff,
  list_beq, string_eq, All, All-weaken, Option-cases, Bool-cases, inl, inr, ◌⊎◌, lookup,
  lookup-insert, ◌≡◌, refl, arith, MapRange, ◌∙◌, ap, sym,
}
use fast_vip.Net.{Net}
use fast_vip.Config.{ServiceConfig, BackendConfig}
use fast_vip.Health.{
  HealthManager, ServiceCheckConfig, is_healthy, handle_check_result, record_result,
}
use fast_vip.Metrics.{RegistryCall, sets, backend_health_status, set_backend_health}
use fast_vip.Server.{
  Platform, Server, services_of, backend_gauges, service_gauges, update_health_metrics,
  trigger_reconcile, on_health_change,
}
use fast_vip.Server.Events.{on_probe}

-- The value of `backend_health_status` under the labels after one call, and after all.
abbrev after_call : List String → RegistryCall → Option ℕ → Option ℕ
after_call labels (sets backend_health_status at v) found =
    if list_beq labels at then some v else found
after_call labels _ found = found

abbrev gauge_from : List String → Option ℕ → List RegistryCall → Option ℕ
gauge_from labels found [] = found
gauge_from labels found (call ∷ rest) = gauge_from labels (after_call labels call found) rest

abbrev pub gauge : List String → List RegistryCall → Option ℕ
gauge labels calls = gauge_from labels none calls

abbrev pub shown : Bool → Option ℕ
shown healthy = some (if healthy then 1 else 0)

gauge_from-append :
    (labels : List String) (found : Option ℕ) (xs ys : List RegistryCall)
    → gauge_from labels found (xs ++ ys) ≡ gauge_from labels (gauge_from labels found xs) ys
gauge_from-append labels found [] ys = refl
gauge_from-append labels found (x ∷ xs) ys =
    gauge_from-append labels (after_call labels x found) xs ys

module _ (health : HealthManager) where
  abbrev verdict : String → Option ℕ
  verdict address = shown (is_healthy health address)

  after_call-keeps :
      (n name a address : String)
      → gauge_from
          (n ∷ a ∷ [])
          (verdict a)
          (set_backend_health name address (is_healthy health address))
        ≡ verdict a
  unfolding set_backend_health
  after_call-keeps n name a address = ground (arith, ==_iff a address)

  after_call-sets :
      (name a : String) (found : Option ℕ)
      → gauge_from (name ∷ a ∷ []) found (set_backend_health name a (is_healthy health a))
        ≡ verdict a
  unfolding set_backend_health
  after_call-sets name a found = ground (arith, ==_iff a a, ==_iff name name)

  backend_gauges-keep :
      (n a name : String) (bs : List BackendConfig)
      → gauge_from (n ∷ a ∷ []) (verdict a) (backend_gauges health name bs) ≡ verdict a
  unfolding backend_gauges
  backend_gauges-keep n a name [] = refl
  backend_gauges-keep n a name (b ∷ bs) =
      gauge_from-append (n ∷ a ∷ []) (verdict a)
        (set_backend_health name b.address (is_healthy health b.address))
        (backend_gauges health name bs)
      ∙ ap (λ g. gauge_from (n ∷ a ∷ []) g (backend_gauges health name bs))
          (after_call-keeps n name a b.address)
      ∙ backend_gauges-keep n a name bs

  service_gauges-keep :
      (n a : String) (svcs : List ServiceConfig)
      → gauge_from (n ∷ a ∷ []) (verdict a) (service_gauges health svcs) ≡ verdict a
  unfolding service_gauges
  service_gauges-keep n a [] = refl
  service_gauges-keep n a (svc ∷ svcs) =
      gauge_from-append (n ∷ a ∷ []) (verdict a) (backend_gauges health svc.name svc.backends)
        (service_gauges health svcs)
      ∙ ap (λ g. gauge_from (n ∷ a ∷ []) g (service_gauges health svcs))
          (backend_gauges-keep n a svc.name svc.backends)
      ∙ service_gauges-keep n a svcs

  -- Every backend of a list ends with its verdict, whatever the gauges were.
  backend_gauges-set :
      (name : String) (bs : List BackendConfig)
      → All
          (λ b.
            (found : Option ℕ)
            → gauge_from (name ∷ BackendConfig.address b ∷ []) found (backend_gauges health name bs)
              ≡ verdict (BackendConfig.address b))
          bs
  unfolding backend_gauges
  backend_gauges-set name [] = tt
  backend_gauges-set name (b ∷ bs) =
      let first = set_backend_health name b.address (is_healthy health b.address) in
      (
        λ found.
            gauge_from-append (name ∷ b.address ∷ []) found first (backend_gauges health name bs)
            ∙ ap (λ g. gauge_from (name ∷ b.address ∷ []) g (backend_gauges health name bs))
                (after_call-sets name b.address found)
            ∙ backend_gauges-keep name b.address name bs,
        All-weaken
            (λ c set found.
              gauge_from-append (name ∷ c.address ∷ []) found first (backend_gauges health name bs)
              ∙ set (gauge_from (name ∷ c.address ∷ []) found first))
            bs (backend_gauges-set name bs),
      )

  service_gauges-set :
      (svcs : List ServiceConfig)
      → All
          (λ svc.
            All
              (λ b.
                (found : Option ℕ)
                → gauge_from
                    (ServiceConfig.name svc ∷ BackendConfig.address b ∷ [])
                    found
                    (service_gauges health svcs)
                  ≡ verdict (BackendConfig.address b))
              (ServiceConfig.backends svc))
          svcs
  unfolding service_gauges
  service_gauges-set [] = tt
  service_gauges-set (svc ∷ svcs) =
      let first = backend_gauges health svc.name svc.backends in
      (
        All-weaken
            (λ b set found.
              gauge_from-append (svc.name ∷ b.address ∷ []) found first (service_gauges health svcs)
              ∙ ap (λ g. gauge_from (svc.name ∷ b.address ∷ []) g (service_gauges health svcs))
                  (set found)
              ∙ service_gauges-keep svc.name b.address svcs)
            svc.backends (backend_gauges-set svc.name svc.backends),
        All-weaken
            (λ other sets_other.
              All-weaken
                (λ b set found.
                  gauge_from-append (other.name ∷ b.address ∷ []) found first
                    (service_gauges health svcs)
                  ∙ set (gauge_from (other.name ∷ b.address ∷ []) found first))
                other.backends sets_other)
            svcs (service_gauges-set svcs),
      )

-- Every configured backend has a gauge, which shows what the health checks say.
abbrev pub ShowsHealth : {H S N L : Type 0} → Server H S N L → Type 0
ShowsHealth s =
    All
      (λ svc.
        All
          (λ b.
            gauge (ServiceConfig.name svc ∷ BackendConfig.address b ∷ []) s.metrics
            ≡ shown (is_healthy s.health_mgr (BackendConfig.address b)))
          (ServiceConfig.backends svc))
      (services_of s)

-- A probe that does not change its verdict changes none.
is_healthy-handle_check_result :
    (address : String) (failed : Bool) (config : ServiceCheckConfig) (m : HealthManager)
    (a : String)
    → (handle_check_result address failed config m).1 ≡ false
    → is_healthy (handle_check_result address failed config m).0 a ≡ is_healthy m a
unfolding handle_check_result is_healthy
is_healthy-handle_check_result address failed config m a same =
    elim (Option-cases (lookup address m.statuses)) [
      | inl e ↦ rw (e, handle_check_result) refl
      | inr (status, e) ↦ ground (
        arith,
        e,
        same,
        lookup-insert address a (record_result config failed status) m.statuses,
        ==_iff address a,
      )
    ]

module _ {H S N L : Type 0} (net : Net) (rng : MapRange) (outside : Platform H S N L) where
  update_health_metrics-ShowsHealth :
      (s : Server H S N L) → ShowsHealth (update_health_metrics net rng outside s)
  unfolding update_health_metrics
  update_health_metrics-ShowsHealth s =
      All-weaken
        (λ svc sets_svc.
          All-weaken
            (λ b set.
              let labels = svc.name ∷ b.address ∷ [] in
              gauge_from-append labels none s.metrics (service_gauges s.health_mgr (services_of s))
              ∙ set (gauge_from labels none s.metrics))
            svc.backends sets_svc)
        (services_of s) (service_gauges-set s.health_mgr (services_of s))

  -- After a probe that changes the verdict on a backend, the last value of the gauge of each
  -- configured backend is the verdict on its address; and that holds after any other probe if it
  -- held before.
  pub on_probe-ShowsHealth :
      (address : String) (failed : Bool) (config : ServiceCheckConfig) (s : Server H S N L)
      → ((handle_check_result address failed config s.health_mgr).1 ≡ true) ⊎ ShowsHealth s
      → ShowsHealth (on_probe net rng outside address failed config s)
  unfolding on_probe on_health_change
  on_probe-ShowsHealth address failed config s before =
      let checked = handle_check_result address failed config s.health_mgr in
      let after = record s { health_mgr = checked.0 } in
      elim (Bool-cases checked.1) [
        | inl changed ↦
            rw (changed, on_probe)
              (update_health_metrics-ShowsHealth (trigger_reconcile net rng outside after))
        | inr same ↦ elim before [
          | inl changed ↦ absurd (ground (arith, changed, same))
          | inr shows ↦
              rw (same, on_probe)
                (All-weaken
                  (λ svc shows_svc.
                    All-weaken
                      (λ b h.
                        h
                        ∙ ap shown (
                            sym (
                              is_healthy-handle_check_result address failed config s.health_mgr
                                b.address same)))
                      svc.backends shows_svc)
                  (services_of s) shows)
        ]
      ]
