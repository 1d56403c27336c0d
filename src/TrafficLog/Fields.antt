-- ===== src/TrafficLog/Fields.antt =====
-- pkg/logutil/fields.go: the common fields of the log entries about a service.
use fast_vip.Prelude.{ℕ, String, Bool, List, [], ◌∷◌, ◌++◌, if◌then◌else◌, ◌==◌, string_eq}
use fast_vip.Config.{ServiceConfig, BackendConfig}

-- zap.String, zap.Bool and zap.Uint64
pub data Field : Type 0 where
  text : String → String → Field
  flag : String → Bool → Field
  number : String → ℕ → Field

unfoldable pub service_fields : ServiceConfig → List Field
service_fields svc =
    let fields =
      text "service" svc.name
      ∷ text "listen" svc.listen
      ∷ text "protocol" svc.protocol
      ∷ text "scheduler" svc.scheduler
      ∷ [] in
    if svc.full_nat
    then fields
      ++ flag "full_nat" svc.full_nat
        ∷ (if svc.snat_ip == "" then [] else text "snat_ip" svc.snat_ip ∷ [])
    else fields

unfoldable pub backend_fields : ServiceConfig → BackendConfig → List Field
backend_fields svc backend = service_fields svc ++ text "backend" backend.address ∷ []
