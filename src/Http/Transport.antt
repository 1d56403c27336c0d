-- ===== src/Http/Transport.antt =====
-- pkg/http/transport.go: a request to a backend over a pooled or a new connection, and the body that gives
-- the connection back. The network is a record of operations over any state `N`; `Q` is a request and `B`
-- the body of a response.
pub mod Settled
use fast_vip.Prelude.{
  ℕ, String, Bool, true, false, not, List, [], ◌∷◌, ◌++◌, Option, none, some, if◌then◌else◌, Dict,
  Error, panic, Result, ok, err,
}
use fast_vip.Config.{ConnectionPoolConfig}
use fast_vip.Http.Pool.{PooledConn, ConnPool, new_conn_pool, get, put, discard}
use fast_vip.Http.Pool as Pool
use fast_vip.Prelude.{MapRange}

pub record Response (B : Type 0) : Type 0 where
  pub status : ℕ
  pub header : Dict String (List String)
  -- the backend asks that the connection is closed
  pub close : Bool
  pub body : B

pub record Network (Q B N : Type 0) : Type 0 where
  -- net.DialTimeout
  pub dial : String → N → Result ℕ × N
  -- Request.Write to a connection
  pub write : Q → String → ℕ → N → Option Error × N
  -- http.ReadResponse from a connection
  pub read_response : Q → String → ℕ → N → Result (Response B) × N
  -- io.Copy(io.Discard, body), its error
  pub read_rest : B → N → Option Error × N
  -- the Close of the body that it reads
  pub close_reader : B → N → Option Error × N
  -- io.Copy to the client, the bytes that are written
  pub copy : B → N → List ℕ × N

-- `closed` lists the connections that the transport closed itself.
pub record Transport (N : Type 0) : Type 0 where
  pub net : N
  pub pool : ConnPool
  pub closed : List PooledConn

pub record ConnBody (B : Type 0) : Type 0 where
  pub reader : B
  pub conn : PooledConn
  pub backend : String
  pub reusable : Bool

unfoldable pub close_conn : {N : Type 0} → PooledConn → Transport N → Transport N
close_conn pc t = record t { closed = t.closed ++ pc ∷ [] }

abbrev pub fresh_conn : ℕ → PooledConn
fresh_conn id = record { conn = some id; idle_time = 0 }

module _ {Q B N : Type 0} (ops : Network Q B N) where
  -- A nil connection is the panic of a nil pointer.
  unfoldable pub round_trip_conn :
      Q → String → PooledConn → Transport N → Result (Response (ConnBody B)) × Transport N
  round_trip_conn r backend pc t = elim pc.conn [
    | none ↦ (err (panic "nil pointer dereference"), t)
    | some id ↦
        let written = ops.write r backend id t.net in
        let answer = ops.read_response r backend id written.1 in
        elim written.0 [
          | some e ↦ (err e, record t { net = written.1 })
          | none ↦ elim answer.0 [
            | err e ↦ (err e, record t { net = answer.1 })
            | ok resp ↦ (
              ok (record {
                status = resp.status;
                header = resp.header;
                close = resp.close;
                body = record {
                  reader = resp.body;
                  conn = pc;
                  backend = backend;
                  reusable = not resp.close;
                };
              }),
              record t { net = answer.1 },
            )
          ]
        ]
  ]

  -- A dial and one attempt on the new connection, which is closed where the attempt fails.
  unfoldable pub dial_and_try :
      Q → String → Transport N → Result (Response (ConnBody B)) × Transport N
  dial_and_try r backend t =
      let dialed = ops.dial backend t.net in
      let t1 = record t { net = dialed.1 } in
      elim dialed.0 [
        | err e ↦ (err e, t1)
        | ok id ↦
            let tried = round_trip_conn r backend (fresh_conn id) t1 in
            elim tried.0 [
              | ok resp ↦ (ok resp, tried.1)
              | err e ↦ (err e, close_conn (fresh_conn id) tried.1)
            ]
      ]

  -- RoundTrip: a failure on a pooled connection, which may be stale, is tried once more on a new one.
  unfoldable pub round_trip :
      Q → String → Transport N → Result (Response (ConnBody B)) × Transport N
  round_trip r backend t =
      let taken = get backend t.pool in
      let t1 = record t { pool = taken.1 } in
      elim taken.0 [
        | none ↦ dial_and_try r backend t1
        | some pc ↦
            let tried = round_trip_conn r backend pc t1 in
            elim tried.0 [
              | ok resp ↦ (ok resp, tried.1)
              | err e ↦
                  dial_and_try r backend (record tried.1 { pool = discard (some pc) tried.1.pool })
            ]
      ]

  -- connBody.Close: the rest of the body is read, then the connection is kept or closed.
  unfoldable pub close_body : ℕ → ConnBody B → Transport N → Option Error × Transport N
  close_body now c t =
      let rest = ops.read_rest c.reader t.net in
      let shut = ops.close_reader c.reader rest.1 in
      let t1 = record t { net = shut.1 } in
      elim rest.0 [
        | some e ↦ (some e, close_conn c.conn t1)
        | none ↦ elim shut.0 [
          | some e ↦ (some e, close_conn c.conn t1)
          | none ↦ (
            none,
            (if c.reusable
                then record t1 { pool = put now c.backend c.conn t1.pool }
                else close_conn c.conn t1),
          )
        ]
      ]

-- Transport.Close
unfoldable pub close_transport : {N : Type 0} → MapRange → Transport N → Transport N
close_transport rng t = record t { pool = Pool.close rng t.pool }
