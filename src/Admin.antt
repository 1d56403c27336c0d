-- ===== src/Admin.antt =====
-- pkg/admin/server.go: the admin server, its handlers and what they answer. `quote` is the verb `%q`; net.Listen
-- and the HTTP server are operations over any state `L`.
pub mod Answers
use fast_vip.Prelude.{
  ℕ, String, Bool, true, false, List, [], ◌∷◌, ◌++◌, Option, none, some, if◌then◌else◌, ◌==◌,
  string_eq, Dict, MapRange, Error, error, panic, map, wrap, Result, ok, err, ◌^^◌, is_some, not,
}
use fast_vip.Net.{Net}
use fast_vip.Http.Manager.{Listening}

pub record AdminServer : Type 0 where
  pub listen_addr : String
  pub metrics_path : String
  pub metrics_enabled : Bool
  pub has_reload : Bool
  -- `server` is set
  pub server : Bool
  pub listener : Option ℕ
  pub actual_addr : String

unfoldable pub new_server : String → Bool → String → AdminServer
new_server listen_addr metrics_enabled metrics_path = record {
  listen_addr = listen_addr;
  metrics_path = metrics_path;
  metrics_enabled = metrics_enabled;
  has_reload = false;
  server = false;
  listener = none;
  actual_addr = "";
}

unfoldable pub is_enabled : AdminServer → Bool
is_enabled s = not (s.listen_addr == "")

pub data Handler : Type 0 where
  prometheus health reload : Handler

-- The patterns that Start registers, in order.
unfoldable pub routes : AdminServer → List (String × Handler)
routes s =
    (if s.metrics_enabled
      then ((if s.metrics_path == "" then "/metrics" else s.metrics_path), prometheus) ∷ []
      else [])
    ++ ("/health", health) ∷ ("/reload", reload) ∷ []

module _ (net : Net) {L : Type 0} (ops : Listening L) where
  unfoldable pub start : AdminServer → L → Option Error × AdminServer × L
  start s l =
      let listened = ops.listen s.listen_addr l in
      let ready = record s { server = true } in
      let patterns = map (λ (r : String × Handler). r.0) (routes s) in
      if s.listen_addr == ""
      then (none, s, l)
      else if not (ops.registers patterns)
      then (some (panic "http: pattern"), s, l)
      else elim (net.split_host_port s.listen_addr) [
        | none ↦ (some (error "invalid admin listen address"), ready, l)
        | some parts ↦ elim listened.0 [
          | err e ↦ (some (wrap "failed to create listener" e), ready, listened.1)
          | ok ln ↦
              (none, record ready { listener = some ln; actual_addr = ops.addr ln }, listened.1)
        ]
      ]

-- Stop: a server that was made but has no listener has nothing to shut down.
unfoldable pub stop : {L : Type 0} → Listening L → AdminServer → L → Option Error × L
stop ops s l = elim s.listener [ none ↦ (none, l) | some ln ↦ ops.shutdown ln l ]

pub record Answer : Type 0 where
  pub status : ℕ
  pub content_type : String
  pub body : String

-- http.Error
abbrev pub plain_error : ℕ → String → Answer
plain_error status text = record {
  status = status;
  content_type = "text/plain; charset=utf-8";
  body = text ^^ "\n";
}

abbrev pub json : ℕ → String → Answer
json status body = record { status = status; content_type = "application/json"; body = body }

-- strings.Join(parts, ",")
unfoldable pub join_commas : List String → String
join_commas [] = ""
join_commas (s ∷ []) = s
join_commas (s ∷ t ∷ rest) = s ^^ "," ^^ join_commas (t ∷ rest)

module _ (quote : String → String) where
  unfoldable pub health_parts : Dict String Bool → List String
  health_parts [] = []
  health_parts ((address, healthy) ∷ rest) =
      (quote address ^^ ":" ^^ (if healthy then "true" else "false")) ∷ health_parts rest

  -- A nil map is `none`.
  unfoldable pub format_health_json : MapRange → Option (Dict String Bool) → String
  format_health_json rng none = "{}"
  format_health_json rng (some statuses) =
      "{" ^^ join_commas (health_parts (rng.order String Bool statuses)) ^^ "}"

  unfoldable pub handle_health : MapRange → String → Option (Dict String Bool) → Answer
  handle_health rng method statuses =
      if method == "GET"
      then json 200
          ("{\"status\":\"healthy\",\"backends\":" ^^ format_health_json rng statuses ^^ "}")
      else plain_error 405 "Method not allowed"

  -- The reload and its result; the text of an error is a parameter too.
  unfoldable pub handle_reload :
      {M : Type 0} → (Error → String) → String → Option (M → Option Error × M) → M → Answer × M
  handle_reload message method reload_func m =
      if method == "POST"
      then elim reload_func [
        | none ↦ (json 503 "{\"status\":\"error\",\"error\":\"reload handler not registered\"}", m)
        | some run ↦
            let (e, after) = run m in
            elim e [
              | some x ↦
                  (json 500 ("{\"status\":\"error\",\"error\":" ^^ quote (message x) ^^ "}"), after)
              | none ↦ (json 200 "{\"status\":\"reloaded\"}", after)
            ]
      ]
      else (plain_error 405 "Method not allowed", m)
