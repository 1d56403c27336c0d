-- ===== src/Lvs/Manager.antt =====
-- pkg/lvs/manager.go: the handle's operations, their errors put in context. Logging is left out.
use fast_vip.Prelude.{List, Result, in_context, wrap_error}
use fast_vip.Lvs.{Service, Destination}
use fast_vip.Lvs.Handle.{IpvsHandle, Outcome}

module _ {H : Type 0} (ops : IpvsHandle H) where
  unfoldable pub close : H → H
  close h = ops.close h

  unfoldable pub get_services : H → Result (List Service)
  get_services h = in_context "failed to get ipvs services" (ops.get_services h)

  unfoldable pub get_destinations : Service → H → Result (List Destination)
  get_destinations svc h =
      in_context "failed to get destinations for service" (ops.get_destinations svc h)

  unfoldable pub create_service : Service → H → Outcome H
  create_service svc h =
      let (e, h') = ops.new_service svc h in (wrap_error "failed to create service" e, h')

  unfoldable pub update_service : Service → H → Outcome H
  update_service svc h =
      let (e, h') = ops.update_service svc h in (wrap_error "failed to update service" e, h')

  unfoldable pub delete_service : Service → H → Outcome H
  delete_service svc h =
      let (e, h') = ops.del_service svc h in (wrap_error "failed to delete service" e, h')

  unfoldable pub create_destination : Service → Destination → H → Outcome H
  create_destination svc dst h =
      let (e, h') = ops.new_destination svc dst h in
      (wrap_error "failed to create destination" e, h')

  unfoldable pub update_destination : Service → Destination → H → Outcome H
  update_destination svc dst h =
      let (e, h') = ops.update_destination svc dst h in
      (wrap_error "failed to update destination" e, h')

  unfoldable pub delete_destination : Service → Destination → H → Outcome H
  delete_destination svc dst h =
      let (e, h') = ops.del_destination svc dst h in
      (wrap_error "failed to delete destination" e, h')

  unfoldable pub flush : H → Outcome H
  flush h = let (e, h') = ops.flush h in (wrap_error "failed to flush IPVS rules" e, h')
