-- ===== src/Http/Manager.antt =====
-- pkg/http/manager.go: the HTTP services and the servers that run them. Listening and shutting down are
-- operations over any state `L` of the other side; a server is known by the number of its listener.
pub mod Running
use fast_vip.Prelude.{
  ℕ, String, Bool, true, false, List, [], ◌∷◌, Option, none, some, if◌then◌else◌, ◌==◌, string_eq,
  Dict, lookup, insert, erase, is_some, pos, Error, error, wrap, Result, ok, err, in_context,
}
use fast_vip.Config.{ConnectionPoolConfig}
use fast_vip.Http.Pool.{new_conn_pool}
use fast_vip.Http.Selector.{HttpService}
use fast_vip.Http.Transport.{Transport}

-- net.Listen, Server.Shutdown, Server.Close and the address of a listener, and whether http.ServeMux
-- takes the patterns one after the other: it panics at one that is malformed or conflicts.
pub record Listening (L : Type 0) : Type 0 where
  pub listen : String → L → Result ℕ × L
  pub shutdown : ℕ → L → Option Error × L
  pub force_close : ℕ → L → Option Error × L
  pub addr : ℕ → String
  pub registers : List String → Bool

pub record Service (N : Type 0) : Type 0 where
  pub name : String
  pub listen : String
  pub balancer : HttpService
  pub transport : Transport N

pub record HttpManager (N : Type 0) : Type 0 where
  pub services : Dict String (Service N)
  -- the server of a name, and its listener
  pub servers : Dict String ℕ
  pub listeners : Dict String ℕ

-- NewTransport, on a network that nothing has used yet.
unfoldable pub new_transport : {N : Type 0} → ConnectionPoolConfig → N → Transport N
new_transport cfg net = record {
  net = net;
  pool = new_conn_pool cfg.max_idle cfg.idle_timeout cfg.cleanup_interval;
  closed = [];
}

unfoldable pub new_service :
    {N : Type 0} → String → String → List String → ConnectionPoolConfig → N → Service N
new_service name listen backends cfg net = record {
  name = name;
  listen = listen;
  balancer = record { backends = backends; next = pos 0 };
  transport = new_transport cfg net;
}

module _ {N : Type 0} where
  abbrev pub new_http_manager : HttpManager N
  new_http_manager = record { services = []; servers = []; listeners = [] }

  -- A nil service is `none`.
  unfoldable pub add_service : Option (Service N) → HttpManager N → Option Error × HttpManager N
  add_service none m = (some (error "service is nil"), m)
  add_service (some svc) m =
      if svc.name == ""
      then (some (error "service name is required"), m)
      else if svc.listen == ""
      then (some (error "listen address is required"), m)
      else elim svc.balancer.backends [
        | [] ↦ (some (error "service has no backends"), m)
        | b ∷ bs ↦
            if is_some (lookup svc.name m.services)
            then (some (error "service already exists"), m)
            else (none, record m { services = insert svc.name svc m.services })
      ]

  unfoldable pub remove_service : String → HttpManager N → Option Error × HttpManager N
  remove_service name m =
      if is_some (lookup name m.services)
      then (if is_some (lookup name m.servers)
          then (some (error "service is still running"), m)
          else (none, record m { services = erase name m.services }))
      else (some (error "service not found"), m)

  module _ {L : Type 0} (ops : Listening L) where
    -- The source looks the name up and stores the server under two locks, with the listen between
    -- them; here no other call comes in between.
    unfoldable pub start_service : String → HttpManager N × L → Option Error × (HttpManager N × L)
    start_service name (m, l) = elim (lookup name m.services) [
      | none ↦ (some (error "service not found"), (m, l))
      | some svc ↦
          let (listened, l1) = ops.listen svc.listen l in
          elim listened [
            | err e ↦ (some (wrap "listen" e), (m, l1))
            | ok ln ↦ (
              none,
              (
                record m {
                  servers = insert name ln m.servers;
                  listeners = insert name ln m.listeners;
                },
                l1,
              ),
            )
          ]
    ]

    unfoldable pub service_addr : String → HttpManager N → Result String
    service_addr name m = elim (lookup name m.listeners) [
      | none ↦ err (error "service is not running")
      | some ln ↦ ok (ops.addr ln)
    ]

    -- A shutdown that fails is followed by a forced close.
    unfoldable pub stop_service : String → HttpManager N × L → Option Error × (HttpManager N × L)
    stop_service name (m, l) = elim (lookup name m.servers) [
      | none ↦ (some (error "service is not running"), (m, l))
      | some server ↦
          let shut = ops.shutdown server l in
          let forced = ops.force_close server shut.1 in
          let stopped = record m {
            servers = erase name m.servers;
            listeners = erase name m.listeners;
          } in
          elim shut.0 [
            | none ↦ (none, (stopped, shut.1))
            | some e ↦ elim forced.0 [
              | none ↦ (none, (stopped, forced.1))
              | some e1 ↦ (some (wrap "failed to force stop HTTP service" e1), (m, forced.1))
            ]
          ]
    ]
