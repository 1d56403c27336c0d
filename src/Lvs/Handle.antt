-- ===== src/Lvs/Handle.antt =====
-- pkg/lvs/ipvs_handle.go: the operations that the manager asks of IPVS, over any state `H` of the
-- other side. A Go `error` result is an `Option Error`.
use fast_vip.Prelude.{Option, List, Error, Result}
use fast_vip.Lvs.{Service, Destination}

abbrev pub Outcome : Type 0 → Type 0
Outcome H = Option Error × H

pub record IpvsHandle (H : Type 0) : Type 0 where
  pub close : H → H
  pub new_service : Service → H → Outcome H
  pub update_service : Service → H → Outcome H
  pub del_service : Service → H → Outcome H
  pub get_services : H → Result (List Service)
  pub new_destination : Service → Destination → H → Outcome H
  pub update_destination : Service → Destination → H → Outcome H
  pub del_destination : Service → Destination → H → Outcome H
  pub get_destinations : Service → H → Result (List Destination)
  pub flush : H → Outcome H
