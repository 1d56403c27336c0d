-- ===== src/Lvs/Desired/Keyed.antt =====
-- The keys of the desired state that buildDesiredState of pkg/lvs/reconciler.go returns.
use fast_vip.Prelude.{
  ℕ, String, Bool, List, [], ◌∷◌, some, ◌≡◌, inl, inr, Option-cases, Dict, insert, IsUnique,
  insert-IsUnique, Every, insert-Every, ok, Result-cases, All, arith,
}
use fast_vip.Net.{Net}
use fast_vip.Config.{ServiceConfig}
use fast_vip.Lvs.{Service, Destination}
use fast_vip.Lvs.Keys.{
  ServiceKey, service_key_eq, service_key_from_ipvs, config_to_ipvs_service,
  service_key_from_config, shorten,
}
use fast_vip.Lvs.Desired.{DesiredService, desired_destinations, build_desired_state}

-- The host of the listen address is the text that the program prints for it, as `10.0.0.1`, and not
-- `::ffff:10.0.0.1`.
abbrev pub HasCanonicalHost : Net → ServiceConfig → Type 0
HasCanonicalHost net cfg =
    (host port : String) (ip : List ℕ)
    → net.split_host_port cfg.listen ≡ some (host, port)
    → net.parse_ip host ≡ some ip
    → net.ip_string (shorten net ip) ≡ host

module _ (net : Net) where
  -- The key of a service from its configuration is the key of the IPVS service made from it.
  pub key-eq-ipvs :
      (cfg : ServiceConfig) (svc : Service) (key : ServiceKey)
      → HasCanonicalHost net cfg
      → config_to_ipvs_service net cfg ≡ ok svc
      → service_key_from_config net cfg ≡ ok key
      → service_key_from_ipvs net svc ≡ key
  unfolding config_to_ipvs_service service_key_from_config service_key_from_ipvs
  key-eq-ipvs cfg svc key c p q = elim (Option-cases (net.split_host_port cfg.listen)) [
    | inl x ↦ absurd (ground arith)
    | inr ((host, port), x) ↦ elim (Option-cases (net.parse_ip host)) [
      | inl y ↦ absurd (ground arith)
      | inr (ip, y) ↦ ground (arith, c host port ip x y)
    ]
  ]

  module _ (is_healthy : String → Bool) where
    -- What the first service of a successful build gives.
    pub build-cons :
        (cfg : ServiceConfig) (cfgs : List ServiceConfig)
        (acc desired : Dict ServiceKey DesiredService)
        → build_desired_state net is_healthy (cfg ∷ cfgs) acc ≡ ok desired
        → (svc : Service) × (key : ServiceKey) × (dsts : List Destination) × (config_to_ipvs_service
              net cfg
            ≡ ok svc)
          × (service_key_from_config net cfg ≡ ok key)
          × (desired_destinations net is_healthy cfg cfg.backends ≡ ok dsts)
          × (build_desired_state net is_healthy cfgs
                (insert key (record { service = svc; destinations = dsts; config = cfg }) acc)
              ≡ ok desired)
    unfolding build_desired_state
    build-cons cfg cfgs acc desired e = elim (Result-cases (config_to_ipvs_service net cfg)) [
      | inr (x, p) ↦ absurd (ground arith)
      | inl (svc, p) ↦ elim (Result-cases (service_key_from_config net cfg)) [
        | inr (x, q) ↦ absurd (ground arith)
        | inl (key, q) ↦
            elim (Result-cases (desired_destinations net is_healthy cfg cfg.backends)) [
              | inr (x, r) ↦ absurd (ground arith)
              | inl (dsts, r) ↦ (svc, key, dsts, p, q, r, ground arith)
            ]
      ]
    ]

    pub build_desired_state-IsUnique :
        (cfgs : List ServiceConfig) (acc desired : Dict ServiceKey DesiredService)
        → build_desired_state net is_healthy cfgs acc ≡ ok desired
        → IsUnique acc
        → IsUnique desired
    unfolding build_desired_state
    build_desired_state-IsUnique [] acc desired e u = ground arith
    build_desired_state-IsUnique (cfg ∷ cfgs) acc desired e u =
        let (svc, key, dsts, p, q, r, e') = build-cons cfg cfgs acc desired e in
        build_desired_state-IsUnique cfgs _ desired e'
          (insert-IsUnique key (record { service = svc; destinations = dsts; config = cfg }) acc u)

    -- The desired services stand under their own keys.
    pub build_desired_state-Every :
        (cfgs : List ServiceConfig) (acc desired : Dict ServiceKey DesiredService)
        → All (HasCanonicalHost net) cfgs
        → build_desired_state net is_healthy cfgs acc ≡ ok desired
        → Every (λ k d. service_key_from_ipvs net d.service ≡ k) acc
        → Every (λ k d. service_key_from_ipvs net d.service ≡ k) desired
    unfolding build_desired_state
    build_desired_state-Every [] acc desired c e w = ground arith
    build_desired_state-Every (cfg ∷ cfgs) acc desired c e w =
        let (svc, key, dsts, p, q, r, e') = build-cons cfg cfgs acc desired e in
        build_desired_state-Every cfgs _ desired c.1 e' (
          insert-Every (λ k d. service_key_from_ipvs net d.service ≡ k) key
            (record { service = svc; destinations = dsts; config = cfg }) acc
            (key-eq-ipvs cfg svc key c.0 p q) w)
