-- ===== src/Config/Validate/Sound.antt =====
-- Configurations that pass Validate of pkg/config/config.go.
use fast_vip.Prelude.{
  String, Bool, true, false, List, [], ◌∷◌, map, none, ◌≡◌, ◌≢◌, refl, sym, ap, ◌∙◌, subst, inl,
  inr, ◌==◌, ==_iff, string_eq, Dict, lookup, insert, is_some, lookup-insert, ok, All, All-weaken,
  Result-cases, Option-cases, arith,
}
use fast_vip.Net.{Net}
use fast_vip.Config.Validate.Valid.{
  IsEndpoint, IsDistinct, IsValidBackend, IsValidService, IsValidConfig,
}
use fast_vip.Config.{BackendConfig, ServiceConfig, Config}
use fast_vip.Config.Validate.{
  valid_scheduler, valid_protocol, valid_port, with_protocol, listen_key, has_backends,
  has_services, check_listen, check_traffic, check_snat, check_health, check_backend,
  check_backends, check_service, check_services, validate,
}

has_services-map :
    (svcs : List ServiceConfig) → has_services (map with_protocol svcs) ≡ has_services svcs
unfolding has_services
has_services-map [] = refl
has_services-map (s ∷ ss) = refl

not_inserted :
    (k : String) (m : Dict String Bool) (t : String)
    → lookup t (insert k true m) ≡ none
    → lookup t m ≡ none
not_inserted k m t e = ground (arith, lookup-insert k t true m)

inserted :
    (k : String) (m : Dict String Bool) (t : String) → lookup t (insert k true m) ≡ none → t ≢ k
inserted k m t e = ground (arith, lookup-insert k t true m, ==_iff k t)

module _ (net : Net) where
  check_backend_sound :
      (seen : Dict String Bool) (b : BackendConfig)
      → check_backend net seen b ≡ ok tt
      → IsValidBackend net b × (lookup b.address seen ≡ none)
  unfolding check_backend valid_port
  check_backend_sound seen b e = elim (Option-cases (net.split_host_port b.address)) [
    | inl x ↦ absurd (ground arith)
    | inr ((host, port), x) ↦ (
      record {
        endpoint = (
          host,
          port,
          x,
          ground arith,
          ground (arith, ==_iff port ""),
          ground (arith, ==_iff port "0"),
        );
        weighted = ground arith;
      },
      ground arith,
    )
  ]

  check_listen_sound :
      (svc : ServiceConfig) → check_listen net svc ≡ ok tt → IsEndpoint net svc.listen
  unfolding check_listen valid_port
  check_listen_sound svc e = elim (Option-cases (net.split_host_port svc.listen)) [
    | inl x ↦ absurd (ground arith)
    | inr ((host, port), x) ↦ (
      host,
      port,
      x,
      ground arith,
      ground (arith, ==_iff port ""),
      ground (arith, ==_iff port "0"),
    )
  ]

  check_backends-cons :
      (seen : Dict String Bool) (b : BackendConfig) (bs : List BackendConfig)
      → check_backends net seen (b ∷ bs) ≡ ok tt
      → (check_backend net seen b ≡ ok tt)
        × (check_backends net (insert b.address true seen) bs ≡ ok tt)
  unfolding check_backends
  check_backends-cons seen b bs e = elim (Result-cases (check_backend net seen b)) [
    | inl (done, x) ↦ (x, ground arith)
    | inr (y, x) ↦ absurd (ground arith)
  ]

  check_backends_sound :
      (bs : List BackendConfig) (seen : Dict String Bool)
      → check_backends net seen bs ≡ ok tt
      → All (IsValidBackend net) bs
        × All (λ t. lookup t seen ≡ none) (map (λ b. b.address) bs)
        × IsDistinct (map (λ b. b.address) bs)
  check_backends_sound [] seen e = (tt, tt, tt)
  check_backends_sound (b ∷ bs) seen e =
      let (one, rest) = check_backends-cons seen b bs e in
      let (valid, new) = check_backend_sound seen b one in
      let (valids, news, distinct) = check_backends_sound bs (insert b.address true seen) rest in
      (
        (valid, valids),
        (new, All-weaken (not_inserted b.address seen) _ news),
        (All-weaken (inserted b.address seen) _ news, distinct),
      )

  -- The parts of a service's check that succeed.
  check_service-parts :
      (names listens : Dict String Bool) (svc : ServiceConfig)
      → check_service net names listens svc ≡ ok tt
      → (svc.name == "" ≡ false)
        × (lookup svc.name names ≡ none)
        × (check_listen net svc ≡ ok tt)
        × (valid_protocol svc.protocol ≡ true)
        × (lookup (listen_key svc) listens ≡ none)
        × (valid_scheduler svc.scheduler ≡ true)
        × (check_snat net svc ≡ ok tt)
        × (has_backends svc.backends ≡ true)
        × (check_backends net [] svc.backends ≡ ok tt)
  unfolding check_service
  check_service-parts names listens svc e = elim (Result-cases (check_listen net svc)) [
    | inr (y, x) ↦ absurd (ground arith)
    | inl (done, x) ↦ elim (Result-cases (check_health net svc.health_check)) [
      | inr (z, y) ↦ absurd (ground arith)
      | inl (done, y) ↦ ground arith
    ]
  ]

  check_snat_sound :
      (svc : ServiceConfig)
      → check_snat net svc ≡ ok tt
      → svc.snat_ip ≢ ""
      → (svc.full_nat ≡ true) × (is_some (net.parse_ip svc.snat_ip) ≡ true)
  unfolding check_snat
  check_snat_sound svc e set = ground (arith, ==_iff svc.snat_ip "")

  check_service_sound :
      (names listens : Dict String Bool) (svc : ServiceConfig)
      → check_service net names listens svc ≡ ok tt
      → IsValidService net svc
        × (lookup svc.name names ≡ none)
        × (lookup (listen_key svc) listens ≡ none)
  unfolding valid_protocol
  check_service_sound names listens svc e =
      let (named, new, listen, proto, new_listen, sched, snat, some_backend, backends) =
        check_service-parts names listens svc e in
      let (valid, fresh, distinct) = check_backends_sound svc.backends [] backends in
      (
        record {
          named = ground (arith, ==_iff svc.name "");
          listens = check_listen_sound svc listen;
          protocol_known = ground (arith, ==_iff svc.protocol "tcp", ==_iff svc.protocol "udp");
          scheduler_known = sched;
          snat_parses = check_snat_sound svc snat;
          nonempty = some_backend;
          backends_valid = valid;
          backends_distinct = distinct;
        },
        new,
        new_listen,
      )

  check_services-cons :
      (names listens : Dict String Bool) (svc : ServiceConfig) (svcs out : List ServiceConfig)
      → check_services net names listens (svc ∷ svcs) ≡ ok out
      → (check_service net names listens (with_protocol svc) ≡ ok tt)
        × ((rest : List ServiceConfig) × (check_services net
                (insert svc.name true names)
                (insert (listen_key (with_protocol svc)) true listens)
                svcs
              ≡ ok rest)
            × (out ≡ with_protocol svc ∷ rest))
  unfolding check_services
  check_services-cons names listens svc svcs out e =
      elim (Result-cases (check_service net names listens (with_protocol svc))) [
        | inr (y, x) ↦ absurd (ground arith)
        | inl (done, x) ↦
            elim (Result-cases (
              check_services net (insert svc.name true names)
                (insert (listen_key (with_protocol svc)) true listens) svcs)) [
                  | inr (z, y) ↦ absurd (ground arith)
                  | inl (rest, y) ↦ (x, (rest, y, ground arith))
                ]
      ]

  check_services_sound :
      (svcs : List ServiceConfig) (names listens : Dict String Bool) (out : List ServiceConfig)
      → check_services net names listens svcs ≡ ok out
      → (out ≡ map with_protocol svcs)
        × All (IsValidService net) out
        × All (λ t. lookup t names ≡ none) (map (λ s. s.name) out)
        × IsDistinct (map (λ s. s.name) out)
        × All (λ t. lookup t listens ≡ none) (map listen_key out)
        × IsDistinct (map listen_key out)
  check_services_sound [] names listens out e =
      subst
        (λ (o : List ServiceConfig).
          (o ≡ [])
          × All (IsValidService net) o
          × All (λ t. lookup t names ≡ none) (map (λ s. s.name) o)
          × IsDistinct (map (λ s. s.name) o)
          × All (λ t. lookup t listens ≡ none) (map listen_key o)
          × IsDistinct (map listen_key o))
        (let f : [] ≡ out = unfold check_services in (ground arith) in f) (refl, tt, tt, tt, tt, tt)
  check_services_sound (svc ∷ svcs) names listens out e =
      let (one, (rest, more, same)) = check_services-cons names listens svc svcs out e in
      let (valid, new, new_listen) = check_service_sound names listens (with_protocol svc) one in
      let name = svc.name in
      let at_ = listen_key (with_protocol svc) in
      let (shape, valids, unseen, distinct, unheard, apart) =
        check_services_sound svcs (insert name true names) (insert at_ true listens) rest more in
      subst
        (λ (o : List ServiceConfig).
          (o ≡ map with_protocol (svc ∷ svcs))
          × All (IsValidService net) o
          × All (λ t. lookup t names ≡ none) (map (λ s. s.name) o)
          × IsDistinct (map (λ s. s.name) o)
          × All (λ t. lookup t listens ≡ none) (map listen_key o)
          × IsDistinct (map listen_key o))
        (sym same)
        (
          ap (λ (r : List ServiceConfig). with_protocol svc ∷ r) shape,
          (valid, valids),
          (new, All-weaken (not_inserted name names) _ unseen),
          (All-weaken (inserted name names) _ unseen, distinct),
          (new_listen, All-weaken (not_inserted at_ listens) _ unheard),
          (All-weaken (inserted at_ listens) _ unheard, apart),
        )

  validate-parts :
      (cfg out : Config)
      → validate net cfg ≡ ok out
      → (has_services cfg.services ≡ true)
        × ((svcs : List ServiceConfig) × (check_services net [] [] cfg.services ≡ ok svcs)
            × (out ≡ record cfg { services = svcs }))
  unfolding validate
  validate-parts cfg out e = elim (Result-cases (check_traffic net cfg.global.log.traffic)) [
    | inr (z, w) ↦ absurd (ground arith)
    | inl (done, w) ↦ elim (Result-cases (check_services net [] [] cfg.services)) [
      | inr (y, x) ↦ absurd (ground arith)
      | inl (svcs, x) ↦ (ground arith, (svcs, x, ground arith))
    ]
  ]

  -- A configuration that Validate accepts has its protocols filled in and is otherwise as it was;
  -- it has a service, each service is valid (a name, addresses that split into an IP and a port, a
  -- known protocol and scheduler, a snat_ip that parses and stands with full_nat only, backends
  -- without repetition and of positive weight), and no two share a name, or a listen address and
  -- protocol.
  pub validate-IsValid :
      (cfg out : Config)
      → validate net cfg ≡ ok out
      → (out.services ≡ map with_protocol cfg.services)
        × (out.global ≡ cfg.global)
        × IsValidConfig net out
  validate-IsValid cfg out e =
      let (some_service, (svcs, x, same)) = validate-parts cfg out e in
      let (shape, valids, _, distinct, _, apart) = check_services_sound cfg.services [] [] svcs x in
      subst
        (λ (o : Config).
          (o.services ≡ map with_protocol cfg.services)
          × (o.global ≡ cfg.global)
          × IsValidConfig net o)
        (sym same)
        (
          shape,
          refl,
          record {
            some_service = ap has_services shape ∙ has_services-map cfg.services ∙ some_service;
            services_valid = valids;
            names_distinct = distinct;
            listens_distinct = apart;
          },
        )
