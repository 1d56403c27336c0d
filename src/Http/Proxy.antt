-- ===== src/Http/Proxy.antt =====
-- pkg/http/proxy.go and pkg/http/handler.go: what a client of an HTTP service is answered.
use fast_vip.Prelude.{
  ℕ, String, List, [], ◌∷◌, ◌++◌, if◌then◌else◌, ◌==◌, string_eq, Dict, MapRange, ok, err, map,
}
use fast_vip.Http.Selector.{HttpService, picked, panics, next_backend}
use fast_vip.Http.Transport.{Network, Transport, round_trip, close_body}

-- The header fields in the order in which they are added. The client gets nothing where the handler panics.
pub data Reply : Type 0 where
  error_reply : String → ℕ → Reply
  forwarded : List (String × String) → ℕ → List ℕ → Reply
  aborted : Reply

-- `w.Header().Add(key, value)` for each value of each key.
unfoldable pub header_adds : Dict String (List String) → List (String × String)
header_adds [] = []
header_adds ((key, values) ∷ rest) = map (λ value. (key, value)) values ++ header_adds rest

module _ (rng : MapRange) {Q B N : Type 0} (ops : Network Q B N) (now : ℕ) where
  -- Proxy.ServeHTTP; the body is closed when it returns.
  unfoldable pub serve_proxy : Q → String → Transport N → Reply × Transport N
  serve_proxy r backend t =
      let trip = round_trip ops r backend t in
      elim trip.0 [
        | err e ↦ (error_reply "bad gateway" 502, trip.1)
        | ok resp ↦
            let copied = ops.copy resp.body.reader trip.1.net in
            (
              forwarded (header_adds (rng.order String (List String) resp.header)) resp.status
                  copied.0,
              (close_body ops now resp.body (record trip.1 { net = copied.1 })).1,
            )
      ]

  -- newHandler
  unfoldable pub serve : Q → HttpService → Transport N → Reply × HttpService × Transport N
  serve r service t =
      let (pick, after) = next_backend service in
      elim pick [
        | panics ↦ (aborted, after, t)
        | picked backend ↦
            if backend == ""
            then (error_reply "no backend available at this moment" 503, after, t)
            else let proxied = serve_proxy r backend t in (proxied.0, after, proxied.1)
      ]
