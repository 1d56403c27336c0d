-- ===== src/Lvs/Desired.antt =====
-- pkg/lvs/reconciler.go: what the configuration and the health of the backends ask for, as IPVS
-- services with their destinations (buildDesiredState) and as SNAT and FORWARD rules (the loops of
-- reconcileSNAT).
pub mod Keyed
pub mod Asked
use fast_vip.Prelude.{
  ℕ, String, Bool, ◌&&◌, not, List, [], ◌∷◌, ◌++◌, if◌then◌else◌, ◌==◌, string_eq, int_eq, Dict,
  insert, Result, ok, ◌>>=◌, in_context, or_error, to_uint16,
}
use fast_vip.Net.{Net}
use fast_vip.Config.{ServiceConfig, BackendConfig}
use fast_vip.Config.Defaults.{is_enabled}
use fast_vip.Snat.{SnatRule, ForwardRule}
use fast_vip.Lvs.{Service, Destination}
use fast_vip.Lvs.Keys.{
  ServiceKey, service_key_eq, destination_key_eq, service_key_from_config, config_to_ipvs_service,
  config_to_ipvs_destination,
}

pub record DesiredService : Type 0 where
  pub service : Service
  pub destinations : List Destination
  pub config : ServiceConfig

module _ (net : Net) (is_healthy : String → Bool) where
  -- A backend is left out while its check is on and has failed.
  unfoldable pub is_skipped : ServiceConfig → BackendConfig → Bool
  is_skipped svc b = is_enabled svc.health_check && not (is_healthy b.address)

  unfoldable pub desired_destinations :
      ServiceConfig → List BackendConfig → Result (List Destination)
  desired_destinations svc [] = ok []
  desired_destinations svc (b ∷ rest) =
      let others = desired_destinations svc rest in
      if is_skipped svc b then others else (do
        dst ← in_context "service, backend" (config_to_ipvs_destination net b)
        dsts ← others
        ok (dst ∷ dsts))

  unfoldable pub build_desired_state :
      List ServiceConfig → Dict ServiceKey DesiredService → Result (Dict ServiceKey DesiredService)
  build_desired_state [] acc = ok acc
  build_desired_state (cfg ∷ rest) acc = do
    svc ← in_context "service" (config_to_ipvs_service net cfg)
    key ← in_context "service" (service_key_from_config net cfg)
    dsts ← desired_destinations cfg cfg.backends
    build_desired_state rest
        (insert key (record { service = svc; destinations = dsts; config = cfg }) acc)

  -- The rules of one service, in the order of its backends.
  unfoldable pub service_rules :
      ServiceConfig
      → List BackendConfig
      → List SnatRule × List ForwardRule
      → Result (List SnatRule × List ForwardRule)
  service_rules svc [] rules = ok rules
  service_rules svc (b ∷ rest) (snats, forwards) =
      let skip = service_rules svc rest (snats, forwards) in
      let add = λ (host : String) (port : ℕ).
        let protocol = if svc.protocol == "" then "tcp" else svc.protocol in
        service_rules svc rest (
          snats
              ++ record {
                backend_ip = host;
                protocol = protocol;
                snat_ip = svc.snat_ip;
                backend_port = port;
              }
                ∷ [],
          forwards ++ record { backend_ip = host; protocol = protocol; backend_port = port } ∷ [],
        ) in
      if is_skipped svc b then skip else (do
        (host, port_str) ← or_error (net.split_host_port b.address) "invalid address"
        port ← or_error (net.atoi port_str) "invalid port"
        add host (to_uint16 port))

  unfoldable pub desired_rules :
      List ServiceConfig
      → List SnatRule × List ForwardRule
      → Result (List SnatRule × List ForwardRule)
  desired_rules [] rules = ok rules
  desired_rules (svc ∷ rest) rules =
      let skip = desired_rules rest rules in
      if svc.full_nat
      then (do rules' ← service_rules svc svc.backends rules; desired_rules rest rules')
      else skip
