-- ===== src/Tests/Proxy.antt =====
-- The theorems about a request that is forwarded, over a network that answers each request.
use fast_vip.Prelude.{
  ℕ, ◌+◌, zero, suc, pos, String, true, false, List, [], ◌∷◌, none, some, ◌≡◌, refl, arith, lookup,
  string_eq, written_order, Error, ok, err, Every-empty,
}
use fast_vip.Http.Pool.{new_conn_pool}
use fast_vip.Http.Pool.Proper.{HasConn}
use fast_vip.Http.Selector.{HttpService}
use fast_vip.Http.Transport.{Network, Transport}
use fast_vip.Http.Transport.Settled
use fast_vip.Http.Transport.Settled.{Dials, Settles}
use fast_vip.Http.Proxy.{serve}
use fast_vip.Http.Manager.{Listening, new_http_manager, new_service}
use fast_vip.Http.Manager.Running
use fast_vip.Http.Manager.Running.{HttpCall, adds, starts, stops, removes, IsSound}

-- The state is the number of connections that were opened; a request and a body are numbers.
abbrev small_network : Network ℕ ℕ ℕ
small_network = record {
  dial = λ backend n. (ok n, suc n);
  write = λ r backend id n. (none, n);
  read_response =
      λ r backend id n. (ok (record { status = 200; header = []; close = false; body = r }), n);
  read_rest = λ b n. (none, n);
  close_reader = λ b n. (none, n);
  copy = λ b n. (b ∷ [], n);
}

abbrev small_dials : Dials small_network
small_dials = record {
  opened = λ n. n;
  dial = λ backend n. omega arith;
  write = λ r backend id n. refl;
  read_response = λ r backend id n. refl;
  read_rest = λ b n. refl;
  close_reader = λ b n. refl;
  copy = λ b n. refl;
}

abbrev fresh : Transport ℕ
fresh = record { net = 0; pool = new_conn_pool (pos 2) (pos 50) (pos 50); closed = [] }

abbrev two_backends : HttpService
two_backends = record { backends = "a:80" ∷ "b:80" ∷ []; next = pos 0 }

serve-Settles_example :
    Settles small_network small_dials fresh
      (serve written_order small_network 5 7 two_backends fresh).2
serve-Settles_example =
    Settled.serve-Settles small_network small_dials written_order 5 7 two_backends fresh
      (tt, Every-empty (λ backend conns. fast_vip.Prelude.All HasConn conns))

abbrev pub listening : Listening ℕ
listening = record {
  listen = λ address l. (ok l, suc l);
  shutdown = λ server l. (none, l);
  force_close = λ server l. (none, l);
  addr = λ server. "10.0.0.1:80";
  registers = λ patterns. true;
}

abbrev calls : List (HttpCall ℕ)
calls =
    adds (
      some (
        new_service "web" "10.0.0.1:80" ("a:80" ∷ [])
          (record { max_idle = pos 2; idle_timeout = pos 50; cleanup_interval = pos 50 }) 0))
    ∷ starts "web"
    ∷ stops "web"
    ∷ removes "web"
    ∷ []

run-IsSound_example : IsSound (Running.run listening calls (new_http_manager, 0)).0
run-IsSound_example = Running.run-IsSound listening calls 0
