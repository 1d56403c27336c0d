-- ===== src/Lvs/Desired/Asked.antt =====
-- What the configuration and the health of the backends ask of IPVS, read off without the desired state that
-- buildDesiredState of pkg/lvs/reconciler.go builds, and that it builds just this.
use fast_vip.Prelude.{
  ℤ, String, Bool, true, false, List, [], ◌∷◌, Option, none, some, ◌≡◌, inl, inr, if◌then◌else◌,
  ◌==◌, string_eq, Option-cases, Bool-cases, Dict, lookup, insert, or_else, lookup-insert, ok, err,
  Result-cases, arith, to_uint16,
}
use fast_vip.Net.{Net}
use fast_vip.Config.{ServiceConfig, BackendConfig}
use fast_vip.Config.Defaults.{is_enabled}
use fast_vip.Lvs.{Service, Destination}
use fast_vip.Lvs.Keys.{
  ServiceKey, DestinationKey, service_key_eq, destination_key_eq, destination_key_from_ipvs,
  config_to_ipvs_service, config_to_ipvs_destination, service_key_from_config, shorten,
}
use fast_vip.Lvs.Desired.{DesiredService, desired_destinations, build_desired_state, is_skipped}
use fast_vip.Lvs.Desired.Keyed.{build-cons}
use fast_vip.Lvs.Destinations.{destination_map}

abbrev pub weight_of : Option Destination → Option ℤ
weight_of none = none
weight_of (some d) = some d.weight

module _ (net : Net) where
  -- The printed IP of a backend, and its port.
  unfoldable pub key_of : BackendConfig → Option DestinationKey
  key_of b = elim (net.split_host_port b.address) [
    | none ↦ none
    | some (host, port_str) ↦ elim (net.atoi port_str) [
      | none ↦ none
      | some port ↦ elim (net.parse_ip host) [
        | none ↦ none
        | some ip ↦
            some (record { address = net.ip_string (shorten net ip); port = to_uint16 port })
      ]
    ]
  ]

  abbrev pub has_key : DestinationKey → BackendConfig → Bool
  has_key j b = elim (key_of b) [ none ↦ false | some k ↦ k == j ]

  abbrev pub is_keyed : ServiceKey → ServiceConfig → Bool
  is_keyed k cfg = elim (service_key_from_config net cfg) [ err e ↦ false | ok j ↦ j == k ]

  -- The last service under a key.
  unfoldable pub last_keyed : ServiceKey → List ServiceConfig → Option ServiceConfig
  last_keyed k [] = none
  last_keyed k (cfg ∷ rest) =
      or_else (last_keyed k rest) (if is_keyed k cfg then some cfg else none)

  -- A backend is used unless its service is checked and it is down.
  abbrev pub is_used : (String → Bool) → ServiceConfig → BackendConfig → Bool
  is_used healthy cfg b = if is_enabled cfg.health_check then healthy b.address else true

  -- The weight of the last backend under a key that is used.
  unfoldable pub asked_weight :
      (String → Bool) → ServiceConfig → List BackendConfig → DestinationKey → Option ℤ
  asked_weight healthy cfg [] j = none
  asked_weight healthy cfg (b ∷ rest) j =
      or_else (asked_weight healthy cfg rest j)
        (if has_key j b then (if is_used healthy cfg b then some b.weight else none) else none)

  key_of-destination :
      (b : BackendConfig) (d : Destination)
      → config_to_ipvs_destination net b ≡ ok d
      → (key_of b ≡ some (destination_key_from_ipvs net d)) × (d.weight ≡ b.weight)
  unfolding key_of config_to_ipvs_destination destination_key_from_ipvs
  key_of-destination b d e = elim (Option-cases (net.split_host_port b.address)) [
    | inl x ↦ absurd (ground arith)
    | inr ((host, port_str), x) ↦ elim (Option-cases (net.atoi port_str)) [
      | inl y ↦ absurd (ground arith)
      | inr (port, y) ↦ elim (Option-cases (net.parse_ip host)) [
        | inl z ↦ absurd (ground arith)
        | inr (ip, z) ↦ ground arith
      ]
    ]
  ]

  service-scheduler :
      (cfg : ServiceConfig) (svc : Service)
      → config_to_ipvs_service net cfg ≡ ok svc
      → svc.sched_name ≡ cfg.scheduler
  unfolding config_to_ipvs_service
  service-scheduler cfg svc e = ground arith

  module _ (healthy : String → Bool) where
    weights-desired_destinations :
        (cfg : ServiceConfig) (bs : List BackendConfig) (dsts : List Destination)
        (acc : Dict DestinationKey Destination) (j : DestinationKey)
        → desired_destinations net healthy cfg bs ≡ ok dsts
        → weight_of (lookup j (destination_map net dsts acc))
          ≡ or_else (asked_weight healthy cfg bs j) (weight_of (lookup j acc))
    unfolding desired_destinations is_skipped asked_weight destination_map
    weights-desired_destinations cfg [] dsts acc j e = ground arith
    weights-desired_destinations cfg (b ∷ rest) dsts acc j e =
        elim (Bool-cases (is_skipped net healthy cfg b)) [
          | inl x ↦ ground (arith, weights-desired_destinations cfg rest dsts acc j)
          | inr x ↦ elim (Result-cases (config_to_ipvs_destination net b)) [
            | inr (y, c) ↦ absurd (ground arith)
            | inl (d, c) ↦ elim (Result-cases (desired_destinations net healthy cfg rest)) [
              | inr (y, r) ↦ absurd (ground arith)
              | inl (ds, r) ↦
                  let same : dsts ≡ d ∷ ds = ground (arith, e, x, c, r) in
                  let key = destination_key_from_ipvs net d in
                  rw (same) (
                    ground (
                      arith,
                      x,
                      key_of-destination b d c,
                      weights-desired_destinations cfg rest ds (insert key d acc) j r,
                      lookup-insert key j d acc,
                    ))
            ]
          ]
        ]

    last-build :
        (cfgs : List ServiceConfig) (acc desired : Dict ServiceKey DesiredService) (k : ServiceKey)
        → build_desired_state net healthy cfgs acc ≡ ok desired
        → last_keyed k cfgs ≡ none
        → lookup k desired ≡ lookup k acc
    unfolding build_desired_state last_keyed
    last-build [] acc desired k e l = ground arith
    last-build (cfg ∷ cfgs) acc desired k e l =
        let (svc, key, dsts, p, q, r, e') = build-cons net healthy cfg cfgs acc desired e in
        let d : DesiredService = record { service = svc; destinations = dsts; config = cfg } in
        ground
          (arith, q, l, last-build cfgs (insert key d acc) desired k e', lookup-insert key k d acc)

    -- The service that was built for the last configuration under a key.
    build_desired_state-last :
        (cfgs : List ServiceConfig) (acc desired : Dict ServiceKey DesiredService) (k : ServiceKey)
        (cfg : ServiceConfig)
        → build_desired_state net healthy cfgs acc ≡ ok desired
        → last_keyed k cfgs ≡ some cfg
        → (d : DesiredService) × (lookup k desired ≡ some d)
          × (d.service.sched_name ≡ cfg.scheduler)
          × (desired_destinations net healthy cfg cfg.backends ≡ ok d.destinations)
    unfolding last_keyed
    build_desired_state-last [] acc desired k cfg e l = absurd (ground arith)
    build_desired_state-last (c ∷ cfgs) acc desired k cfg e l =
        let (svc, key, dsts, p, q, r, e') = build-cons net healthy c cfgs acc desired e in
        let d : DesiredService = record { service = svc; destinations = dsts; config = c } in
        elim (Option-cases (last_keyed k cfgs)) [
          | inr (x, f) ↦
              build_desired_state-last cfgs (insert key d acc) desired k cfg e'
                (ground (arith, l, f))
          | inl f ↦
              let mine : (c ≡ cfg) × ((key == k) ≡ true) = ground (arith, l, f, q) in
              (
                d,
                ground (
                  arith,
                  mine,
                  last-build cfgs (insert key d acc) desired k e' f,
                  lookup-insert key k d acc,
                ),
                ground (arith, mine, service-scheduler c svc p),
                ground (arith, mine, r),
              )
        ]

    -- The desired state asks just for what the last configuration under a key asks for.
    pub built-asked :
        (cfgs : List ServiceConfig) (desired : Dict ServiceKey DesiredService) (k : ServiceKey)
        (cfg : ServiceConfig)
        → build_desired_state net healthy cfgs [] ≡ ok desired
        → last_keyed k cfgs ≡ some cfg
        → (d : DesiredService) × (lookup k desired ≡ some d)
          × (d.service.sched_name ≡ cfg.scheduler)
          × ((j : DestinationKey)
              → weight_of (lookup j (destination_map net d.destinations []))
                ≡ asked_weight healthy cfg cfg.backends j)
    unfolding lookup
    built-asked cfgs desired k cfg e l =
        let (d, found, sched, dsts) = build_desired_state-last cfgs [] desired k cfg e l in
        (
          d,
          found,
          sched,
          λ j.
              ground
                (arith, weights-desired_destinations cfg cfg.backends d.destinations [] j dsts),
        )
