-- ===== src/Http/Transport/Settled.antt =====
-- The connections of a request, pkg/http/transport.go and pkg/http/proxy.go.
use fast_vip.Prelude.{
  ℕ, ◌+◌, String, List, [], ◌∷◌, some, Result, ok, err, Result-cases, Option-cases, Bool-cases, inl,
  inr, ◌≡◌, refl, arith, length, length-append, string_eq, ◌==◌, MapRange, ap, ◌⊎◌, ◌∙◌, subst, sym,
}
use fast_vip.Http.Pool.{PooledConn, get, discard}
use fast_vip.Http.Pool.Counts.{accounted, accounted-get, accounted-put}
use fast_vip.Http.Pool.Proper.{HasConn, IsProper, get-IsProper, put-IsProper, discard_lem}
use fast_vip.Http.Selector.{HttpService, Pick, picked, panics, next_backend}
use fast_vip.Http.Transport.{
  Network, Transport, Response, ConnBody, fresh_conn, close_conn, round_trip_conn, dial_and_try,
  round_trip, close_body,
}
use fast_vip.Http.Proxy.{serve_proxy, serve}

-- What the network promises of the number of connections that were opened: a dial that succeeds opens one.
pub record Dials {Q B N : Type 0} (ops : Network Q B N) : Type 0 where
  pub opened : N → ℕ
  pub dial :
      (backend : String) (n : N)
      → opened (ops.dial backend n).1
        ≡ elim (ops.dial backend n).0 [ ok id ↦ opened n + 1 | err e ↦ opened n ]
  pub write :
      (r : Q) (backend : String) (id : ℕ) (n : N) → opened (ops.write r backend id n).1 ≡ opened n
  pub read_response :
      (r : Q) (backend : String) (id : ℕ) (n : N)
      → opened (ops.read_response r backend id n).1 ≡ opened n
  pub read_rest : (b : B) (n : N) → opened (ops.read_rest b n).1 ≡ opened n
  pub close_reader : (b : B) (n : N) → opened (ops.close_reader b n).1 ≡ opened n
  pub copy : (b : B) (n : N) → opened (ops.copy b n).1 ≡ opened n

Pick-cases : (p : Pick) → (p ≡ panics) ⊎ ((backend : String) × (p ≡ picked backend))
Pick-cases panics = inl refl
Pick-cases (picked backend) = inr (backend, refl)

module _ {Q B N : Type 0} (ops : Network Q B N) (laws : Dials ops) where
  -- The connections that the transport holds or has closed.
  abbrev pub kept : Transport N → ℕ
  kept t = accounted t.pool + length t.closed

  -- From `t` to `u`, the opened connections but `extra` are held or closed.
  abbrev Balanced : ℕ → Transport N → Transport N → Type 0
  Balanced extra t u = laws.opened u.net + kept t ≡ laws.opened t.net + kept u + extra

  abbrev in_flight : Result (Response (ConnBody B)) → ℕ
  in_flight (ok resp) = 1
  in_flight (err e) = 0

  abbrev Carries : PooledConn → Result (Response (ConnBody B)) → Type 0
  Carries pc (ok resp) = resp.body.conn ≡ pc
  Carries pc (err e) = Unit

  abbrev CarriesConn : Result (Response (ConnBody B)) → Type 0
  CarriesConn (ok resp) = HasConn resp.body.conn
  CarriesConn (err e) = Unit

  trip_conn_lem :
      (r : Q) (backend : String) (pc : PooledConn) (t : Transport N)
      → ((round_trip_conn ops r backend pc t).1.pool ≡ t.pool)
        × ((round_trip_conn ops r backend pc t).1.closed ≡ t.closed)
        × (laws.opened (round_trip_conn ops r backend pc t).1.net ≡ laws.opened t.net)
        × Carries pc (round_trip_conn ops r backend pc t).0
  unfolding round_trip_conn
  trip_conn_lem r backend pc t = elim (Option-cases pc.conn) [
    | inl e ↦ rw (e, round_trip_conn) (refl, refl, refl, tt)
    | inr (id, e) ↦
        let n1 = (ops.write r backend id t.net).1 in
        let w = laws.write r backend id t.net in
        let a = laws.read_response r backend id n1 in
        elim (Option-cases (ops.write r backend id t.net).0) [
          | inr (x, f) ↦ rw (e, round_trip_conn, f) (refl, refl, w, tt)
          | inl f ↦ elim (Result-cases (ops.read_response r backend id n1).0) [
            | inl (resp, g) ↦
                rw (e, round_trip_conn, f, g)
                  (refl, refl, a ∙ w, ap (λ c. record pc { conn = c }) e)
            | inr (x, g) ↦ rw (e, round_trip_conn, f, g) (refl, refl, a ∙ w, tt)
          ]
        ]
  ]

  -- What a part of a request does: the connections balance, but the one that the response carries.
  abbrev Goes : Transport N → Result (Response (ConnBody B)) × Transport N → Type 0
  Goes t after =
      Balanced (in_flight after.0) t after.1 × IsProper after.1.pool × CarriesConn after.0

  dial_and_try-Goes :
      (r : Q) (backend : String) (t : Transport N)
      → IsProper t.pool
      → Goes t (dial_and_try ops r backend t)
  unfolding dial_and_try close_conn
  dial_and_try-Goes r backend t h =
      let t1 = record t { net = (ops.dial backend t.net).1 } in
      elim (Result-cases (ops.dial backend t.net).0) [
        | inr (e, f) ↦ rw (f, dial_and_try) (ground (arith, laws.dial backend t.net, f), h, tt)
        | inl (id, f) ↦
            let pc = fresh_conn id in
            let opens : laws.opened t1.net ≡ laws.opened t.net + 1 =
              ground (arith, laws.dial backend t.net, f) in
            let (same_pool, same_closed, same_opened, carries) = trip_conn_lem r backend pc t1 in
            elim (Result-cases (round_trip_conn ops r backend pc t1).0) [
              | inl (resp, g) ↦
                  rw (f, dial_and_try, g)
                    (
                      omega (
                        arith,
                        opens,
                        same_opened,
                        ap accounted same_pool,
                        ap (λ (xs : List PooledConn). length xs) same_closed,
                      ),
                      subst IsProper (sym same_pool) h,
                      subst HasConn (sym (subst (Carries pc) g carries)) refl,
                    )
              | inr (e, g) ↦
                  rw (f, dial_and_try, g)
                    (
                      omega (
                        arith,
                        opens,
                        same_opened,
                        ap accounted same_pool,
                        ap (λ (xs : List PooledConn). length xs) same_closed,
                        length-append (round_trip_conn ops r backend pc t1).1.closed (pc ∷ []),
                      ),
                      subst IsProper (sym same_pool) h,
                      tt,
                    )
            ]
      ]

  round_trip-Goes :
      (r : Q) (backend : String) (t : Transport N)
      → IsProper t.pool
      → Goes t (round_trip ops r backend t)
  unfolding round_trip discard
  round_trip-Goes r backend t h =
      let t1 = record t { pool = (get backend t.pool).1 } in
      let (proper, has) = get-IsProper backend t.pool h in
      let taken = accounted-get backend t.pool h.0 in
      elim (Option-cases (get backend t.pool).0) [
        | inl f ↦
            let (balanced, proper1, carries) = dial_and_try-Goes r backend t1 proper in
            let none_taken : accounted t1.pool ≡ accounted t.pool = ground (arith, taken, f) in
            rw (f, round_trip) (omega (arith, balanced, none_taken), proper1, carries)
        | inr (pc, f) ↦
            let one_taken : accounted t1.pool + 1 ≡ accounted t.pool = ground (arith, taken, f) in
            let (same_pool, same_closed, same_opened, carries) = trip_conn_lem r backend pc t1 in
            elim (Result-cases (round_trip_conn ops r backend pc t1).0) [
              | inl (resp, g) ↦
                  rw (f, round_trip, g)
                    (
                      omega (
                        arith,
                        one_taken,
                        same_opened,
                        ap accounted same_pool,
                        ap (λ (xs : List PooledConn). length xs) same_closed,
                      ),
                      subst IsProper (sym same_pool) proper,
                      subst HasConn (sym (subst (Carries pc) g carries)) (has pc f),
                    )
              | inr (e, g) ↦
                  let u = (round_trip_conn ops r backend pc t1).1 in
                  let t2 = record u { pool = discard (some pc) u.pool } in
                  let discarded =
                    discard_lem pc u.pool (has pc f) (subst IsProper (sym same_pool) proper) in
                  let (balanced, proper1, carries1) = dial_and_try-Goes r backend t2 discarded.0 in
                  rw (f, round_trip, g)
                    (
                      omega (
                        arith,
                        balanced,
                        discarded.1,
                        one_taken,
                        same_opened,
                        ap accounted same_pool,
                        ap (λ (xs : List PooledConn). length xs) same_closed,
                      ),
                      proper1,
                      carries1,
                    )
            ]
      ]

  close_body-settles :
      (now : ℕ) (c : ConnBody B) (t : Transport N)
      → HasConn c.conn
      → IsProper t.pool
      → (laws.opened (close_body ops now c t).1.net ≡ laws.opened t.net)
        × (kept (close_body ops now c t).1 ≡ kept t + 1)
        × IsProper (close_body ops now c t).1.pool
  unfolding close_body close_conn
  close_body-settles now c t has h =
      let n1 = (ops.read_rest c.reader t.net).1 in
      let same = laws.close_reader c.reader n1 ∙ laws.read_rest c.reader t.net in
      let more = length-append t.closed (c.conn ∷ []) in
      elim (Option-cases (ops.read_rest c.reader t.net).0) [
        | inr (e, f) ↦ rw (f, close_body) (same, omega (arith, more), h)
        | inl f ↦ elim (Option-cases (ops.close_reader c.reader n1).0) [
          | inr (e, g) ↦ rw (f, g, close_body) (same, omega (arith, more), h)
          | inl g ↦ elim (Bool-cases c.reusable) [
            | inl b ↦
                rw (f, g, b, close_body)
                  (
                    same,
                    ground (arith, accounted-put now c.backend c.conn t.pool, has),
                    put-IsProper now c.backend c.conn t.pool h,
                  )
            | inr b ↦ rw (f, g, b, close_body) (same, omega (arith, more), h)
          ]
        ]
      ]

  -- Nothing is left in flight.
  abbrev pub Settles : Transport N → Transport N → Type 0
  Settles t u = (laws.opened u.net + kept t ≡ laws.opened t.net + kept u) × IsProper u.pool

  serve_proxy-Settles :
      (rng : MapRange) (now : ℕ) (r : Q) (backend : String) (t : Transport N)
      → IsProper t.pool
      → Settles t (serve_proxy rng ops now r backend t).1
  unfolding serve_proxy
  serve_proxy-Settles rng now r backend t h =
      let trip = round_trip ops r backend t in
      let goes = round_trip-Goes r backend t h in
      elim (Result-cases trip.0) [
        | inr (e, f) ↦
            let (balanced, proper, no_conn) = subst (λ res. Goes t (res, trip.1)) f goes in
            rw (f, serve_proxy) (omega (arith, balanced), proper)
        | inl (resp, f) ↦
            let (balanced, proper, has) = subst (λ res. Goes t (res, trip.1)) f goes in
            let t1 = record trip.1 { net = (ops.copy resp.body.reader trip.1.net).1 } in
            let (same, one, proper1) = close_body-settles now resp.body t1 has proper in
            rw (f, serve_proxy)
              (omega (arith, balanced, same, one, laws.copy resp.body.reader trip.1.net), proper1)
      ]

  -- If every idle connection of the pool is one and no backend stands twice, and the network
  -- counts the dials that succeed, then after a request has been answered, whatever fails on the
  -- way, the connections opened for it are idle in the pool or closed: the number opened grows as
  -- the number held or closed, and the pool is still so.
  pub serve-Settles :
      (rng : MapRange) (now : ℕ) (r : Q) (service : HttpService) (t : Transport N)
      → IsProper t.pool
      → Settles t (serve rng ops now r service t).2
  unfolding serve
  serve-Settles rng now r service t h = elim (Pick-cases (next_backend service).0) [
    | inl e ↦ rw (e, serve) (refl, h)
    | inr (backend, e) ↦ elim (Bool-cases (backend == "")) [
      | inl b ↦ rw (e, b, serve) (refl, h)
      | inr b ↦ rw (e, b, serve) (serve_proxy-Settles rng now r backend t h)
    ]
  ]
