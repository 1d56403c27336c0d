-- ===== src/Server/KernelParams/Preflight.antt =====
-- What the preflight of pkg/server/kernel_params.go says of the kernel.
use fast_vip.Prelude.{
  Bool, true, Bool-cases, String, List, [], ◌∷◌, Option, none, some, ==_iff, string_eq, Result, ok,
  err, ◌≡◌, ◌≢◌, ◌↔◌, ◌⊎◌, inl, inr, arith, All, MapRange, Result-cases, Option-cases, lookup,
}
use fast_vip.Server.KernelParams.{
  KernelParamCheck, exactly, zero_or_two, kernel_param_checks, is_valid, kernel_param_path,
  LogEntry, passed, check_param, failures, log_preflight,
}

module _ (rng : MapRange) (read : String → Result String) (trim_space : String → String) where
  -- The value of a parameter, where its file can be read.
  abbrev pub value_of : String → Option String
  value_of name = elim (read (kernel_param_path name)) [
    | err e ↦ none
    | ok raw ↦ some (trim_space raw)
  ]

  exactly-value_of :
      (name v : String)
      → (check_param rng read trim_space (exactly name v) ≡ none) ↔ (value_of name ≡ some v)
  unfolding check_param is_valid
  exactly-value_of name v = elim (Result-cases (read (kernel_param_path name))) [
    | inl (raw, e) ↦ ground (arith, e, ==_iff (trim_space raw) v)
    | inr (x, e) ↦ ground (arith, e)
  ]

  zero_or_two-value_of :
      (name : String)
      → (check_param rng read trim_space (zero_or_two name) ≡ none)
        ↔ ((value_of name ≡ some "0") ⊎ (value_of name ≡ some "2"))
  unfolding check_param is_valid lookup
  zero_or_two-value_of name = elim (Result-cases (read (kernel_param_path name))) [
    | inl (raw, e) ↦ ground (arith, e, ==_iff "0" (trim_space raw), ==_iff "2" (trim_space raw))
    | inr (x, e) ↦ ground (arith, e)
  ]

  check_param-passed :
      (c : KernelParamCheck) (entry : LogEntry)
      → check_param rng read trim_space c ≡ some entry
      → entry ≢ passed
  unfolding check_param
  check_param-passed c entry found same = elim (Result-cases (read (kernel_param_path c.name))) [
    | inl (raw, e) ↦ ground (arith, e, found, same)
    | inr (x, e) ↦ ground (arith, e, found, same)
  ]

  -- The entries, or that all passed.
  abbrev logged : List LogEntry → List LogEntry
  logged [] = passed ∷ []
  logged (entry ∷ rest) = entry ∷ rest

  logged-failures :
      (cs : List KernelParamCheck)
      → (logged (failures rng read trim_space cs) ≡ passed ∷ [])
        ↔ All (λ c. check_param rng read trim_space c ≡ none) cs
  unfolding failures
  logged-failures [] = ground arith
  logged-failures (c ∷ cs) = elim (Option-cases (check_param rng read trim_space c)) [
    | inl e ↦ ground (arith, e, logged-failures cs)
    | inr (entry, e) ↦ ground (arith, e, check_param-passed c entry e)
  ]

  logged-passed : (logged (failures rng read trim_space kernel_param_checks) ≡ passed ∷ []) ↔ (
      (value_of "net.ipv4.ip_forward" ≡ some "1")
      × (value_of "net.ipv4.vs.conntrack" ≡ some "1")
      × ((value_of "net.ipv4.conf.all.rp_filter" ≡ some "0")
          ⊎ (value_of "net.ipv4.conf.all.rp_filter" ≡ some "2"))
      × ((value_of "net.ipv4.conf.default.rp_filter" ≡ some "0")
          ⊎ (value_of "net.ipv4.conf.default.rp_filter" ≡ some "2")))
  logged-passed =
      let both = logged-failures kernel_param_checks in
      let forward = exactly-value_of "net.ipv4.ip_forward" "1" in
      let tracked = exactly-value_of "net.ipv4.vs.conntrack" "1" in
      let all_filter = zero_or_two-value_of "net.ipv4.conf.all.rp_filter" in
      let default_filter = zero_or_two-value_of "net.ipv4.conf.default.rp_filter" in
      (
        λ e.
            let (a, (b, (c, (d, u)))) = both.0 e in
            (forward.0 a, tracked.0 b, all_filter.0 c, default_filter.0 d),
        λ h.
            both.1 (forward.1 h.0, (tracked.1 h.1, (all_filter.1 h.2, (default_filter.1 h.3, tt)))),
      )

  -- The preflight logs just that it passed if and only if the system is one that is checked and
  -- the server has a logger, and the files of the four parameters can be read and hold, without
  -- the space around them, 1 for net.ipv4.ip_forward and for net.ipv4.vs.conntrack, and 0 or 2 for
  -- each of the two rp_filter parameters.
  pub log_preflight-passed :
      (check_enabled has_logger : Bool)
      → (log_preflight rng read trim_space check_enabled has_logger ≡ passed ∷ []) ↔ (
          (check_enabled ≡ true)
          × (has_logger ≡ true)
          × (value_of "net.ipv4.ip_forward" ≡ some "1")
          × (value_of "net.ipv4.vs.conntrack" ≡ some "1")
          × ((value_of "net.ipv4.conf.all.rp_filter" ≡ some "0")
              ⊎ (value_of "net.ipv4.conf.all.rp_filter" ≡ some "2"))
          × ((value_of "net.ipv4.conf.default.rp_filter" ≡ some "0")
              ⊎ (value_of "net.ipv4.conf.default.rp_filter" ≡ some "2")))
  unfolding log_preflight
  log_preflight-passed check_enabled has_logger = elim (Bool-cases check_enabled) [
    | inr e ↦ ground (arith, e)
    | inl e ↦ elim (Bool-cases has_logger) [
      | inr f ↦ ground (arith, e, f)
      | inl f ↦ ground (arith, e, f, logged-passed)
    ]
  ]
