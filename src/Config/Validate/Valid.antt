-- ===== src/Config/Validate/Valid.antt =====
-- The configurations that pkg/config/config.go means to accept.
use fast_vip.Prelude.{
  String, true, false, List, [], ◌∷◌, map, some, ◌≡◌, ◌≢◌, ◌⊎◌, le_zero, is_some, All,
}
use fast_vip.Net.{Net}
use fast_vip.Config.{BackendConfig, ServiceConfig, Config}
use fast_vip.Config.Validate.{valid_scheduler, listen_key, has_backends, has_services}

-- An address that splits into an IP and a port that is neither empty nor "0".
abbrev pub IsEndpoint : Net → String → Type 0
IsEndpoint net address =
    (host : String) × (port : String) × (net.split_host_port address ≡ some (host, port))
    × (is_some (net.parse_ip host) ≡ true)
    × (port ≢ "")
    × (port ≢ "0")

-- No text of the list stands twice.
abbrev pub IsDistinct : List String → Type 0
IsDistinct [] = Unit
IsDistinct (s ∷ ss) = All (λ t. t ≢ s) ss × IsDistinct ss

pub record IsValidBackend (net : Net) (b : BackendConfig) : Type 0 where
  pub endpoint : IsEndpoint net b.address
  pub weighted : le_zero b.weight ≡ false

pub record IsValidService (net : Net) (svc : ServiceConfig) : Type 0 where
  pub named : svc.name ≢ ""
  pub listens : IsEndpoint net svc.listen
  pub protocol_known : (svc.protocol ≡ "tcp") ⊎ (svc.protocol ≡ "udp")
  pub scheduler_known : valid_scheduler svc.scheduler ≡ true
  pub snat_parses :
      svc.snat_ip ≢ "" → (svc.full_nat ≡ true) × (is_some (net.parse_ip svc.snat_ip) ≡ true)
  pub nonempty : has_backends svc.backends ≡ true
  pub backends_valid : All (IsValidBackend net) svc.backends
  pub backends_distinct : IsDistinct (map (λ b. b.address) svc.backends)

-- There is a service, each is valid, and no two share a name, or a listen address and protocol.
pub record IsValidConfig (net : Net) (cfg : Config) : Type 0 where
  pub some_service : has_services cfg.services ≡ true
  pub services_valid : All (IsValidService net) cfg.services
  pub names_distinct : IsDistinct (map (λ s. s.name) cfg.services)
  pub listens_distinct : IsDistinct (map listen_key cfg.services)
