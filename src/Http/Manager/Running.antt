-- ===== src/Http/Manager/Running.antt =====
-- Sequences of calls of the manager of pkg/http/manager.go.
use fast_vip.Prelude.{
  String, true, List, [], ◌∷◌, Option, none, some, ==_iff, string_eq, lookup, is_some,
  lookup-insert, lookup-erase, ◌≡◌, refl, arith, Result-cases, Option-cases, inl, inr,
}
use fast_vip.Http.Manager.{
  Listening, Service, HttpManager, new_http_manager, add_service, remove_service, start_service,
  stop_service,
}

pub data HttpCall (N : Type 0) : Type 0 where
  adds : Option (Service N) → HttpCall N
  starts removes stops : String → HttpCall N

-- A running server has its listener, and its service is registered.
abbrev pub IsSound : {N : Type 0} → HttpManager N → Type 0
IsSound m =
    (name : String)
    → (lookup name m.servers ≡ lookup name m.listeners)
      × (is_some (lookup name m.servers) ≡ true → is_some (lookup name m.services) ≡ true)

module _ {N : Type 0} where
  add_service-IsSound :
      (svc : Option (Service N)) (m : HttpManager N) → IsSound m → IsSound (add_service svc m).1
  unfolding add_service
  add_service-IsSound none m h j = h j
  add_service-IsSound (some svc) m h j =
      ground (arith, h j, lookup-insert svc.name j svc m.services, ==_iff svc.name j)

  remove_service-IsSound :
      (name : String) (m : HttpManager N) → IsSound m → IsSound (remove_service name m).1
  unfolding remove_service
  remove_service-IsSound name m h j =
      ground (arith, h j, ==_iff name j, lookup-erase name j m.services)

  module _ {L : Type 0} (ops : Listening L) where
    start_service-IsSound :
        (name : String) (m : HttpManager N × L)
        → IsSound m.0
        → IsSound (start_service ops name m).1.0
    unfolding start_service
    start_service-IsSound name (m, l) h = elim (Option-cases (lookup name m.services)) [
      | inl e ↦ rw (e, start_service) h
      | inr (svc, e) ↦ elim (Result-cases (ops.listen svc.listen l).0) [
        | inr (x, f) ↦ rw (e, f, start_service) h
        | inl (ln, f) ↦
            rw (e, f, start_service)
              λ j. ground (
                arith,
                h j,
                e,
                lookup-insert name j ln m.servers,
                lookup-insert name j ln m.listeners,
                ==_iff name j,
              )
      ]
    ]

    stop_service-IsSound :
        (name : String) (m : HttpManager N × L)
        → IsSound m.0
        → IsSound (stop_service ops name m).1.0
    unfolding stop_service
    stop_service-IsSound name (m, l) h j =
        ground (arith, h j, lookup-erase name j m.servers, lookup-erase name j m.listeners)

    unfoldable pub step : HttpCall N → HttpManager N × L → HttpManager N × L
    step (adds svc) (m, l) = ((add_service svc m).1, l)
    step (removes name) (m, l) = ((remove_service name m).1, l)
    step (starts name) m = (start_service ops name m).1
    step (stops name) m = (stop_service ops name m).1

    unfoldable pub run : List (HttpCall N) → HttpManager N × L → HttpManager N × L
    run [] m = m
    run (call ∷ rest) m = run rest (step call m)

    step-IsSound :
        (call : HttpCall N) (m : HttpManager N × L) → IsSound m.0 → IsSound (step call m).0
    unfolding step
    step-IsSound (adds svc) (m, l) h = add_service-IsSound svc m h
    step-IsSound (removes name) (m, l) h = remove_service-IsSound name m h
    step-IsSound (starts name) m h = start_service-IsSound name m h
    step-IsSound (stops name) m h = stop_service-IsSound name m h

    run_from-IsSound :
        (calls : List (HttpCall N)) (m : HttpManager N × L) → IsSound m.0 → IsSound (run calls m).0
    unfolding run
    run_from-IsSound [] m h = h
    run_from-IsSound (call ∷ rest) m h = run_from-IsSound rest (step call m) (step-IsSound call m h)

    -- After any sequence of calls that add, start, stop and remove services, whichever listens and
    -- shutdowns fail: a name has a server just if it has that server's listener, and the service
    -- of a running server is registered.
    pub run-IsSound :
        (calls : List (HttpCall N)) (l : L) → IsSound (run calls (new_http_manager, l)).0
    unfolding lookup
    run-IsSound calls l =
        run_from-IsSound calls (new_http_manager, l) λ j. (refl, λ running. running)
