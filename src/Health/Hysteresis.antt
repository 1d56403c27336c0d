-- ===== src/Health/Hysteresis.antt =====
-- The verdict on a backend from the outcomes of its probes, pkg/healthcheck/manager.go.
use fast_vip.Prelude.{
  ℕ, zero, suc, ◌+◌, ◌<◌, pos, String, Bool, true, false, ◌&&◌, ◌||◌, List, [], ◌∷◌, ◌≡◌, refl, ◌⊎◌,
  inl, ltb, leb, bool_beq, replicate, ◌++◌, if◌then◌else◌, arith,
}
use fast_vip.Health.{ServiceCheckConfig, BackendStatus, record_result}

-- The outcomes of probes, `true` for a failure, the oldest first.
unfoldable pub run : ServiceCheckConfig → List Bool → BackendStatus → BackendStatus
run config [] s = s
run config (failed ∷ rest) s = run config rest (record_result config failed s)

-- At most one of the counters counts, and a verdict stands only while the other verdict's threshold
-- is not reached.
pub record IsSettled (f r : ℕ) (s : BackendStatus) : Type 0 where
  pub one_run : (s.consecutive_fails ≡ 0) ⊎ (s.consecutive_ok ≡ 0)
  pub while_up : s.healthy ≡ true → s.consecutive_fails < f
  pub while_down : s.healthy ≡ false → s.consecutive_ok < r

module _ (config : ServiceCheckConfig) (f r : ℕ) (fails_at : config.fail_count ≡ pos f)
    (rises_at : config.rise_count ≡ pos r) (f_pos : 0 < f) (r_pos : 0 < r) where
  record_result-IsSettled :
      (failed : Bool) (s : BackendStatus)
      → IsSettled f r s
      → IsSettled f r (record_result config failed s)
  unfolding record_result
  record_result-IsSettled true s h = ground arith
  record_result-IsSettled false s h = ground arith

  pub run-IsSettled :
      (outcomes : List Bool) (s : BackendStatus)
      → IsSettled f r s
      → IsSettled f r (run config outcomes s)
  unfolding run
  run-IsSettled [] s h = h
  run-IsSettled (o ∷ outcomes) s h =
      run-IsSettled outcomes (record_result config o s) (record_result-IsSettled o s h)

  record_result-flip :
      (failed : Bool) (s : BackendStatus)
      → IsSettled f r s
      → let t = record_result config failed s in
        ((s.healthy ≡ true) → (t.healthy ≡ false) → (failed ≡ true) × (t.consecutive_fails ≡ f))
        × ((s.healthy ≡ false) → (t.healthy ≡ true) → (failed ≡ false) × (t.consecutive_ok ≡ r))
  unfolding record_result
  record_result-flip true s h = ground arith
  record_result-flip false s h = ground arith

  -- With positive thresholds, from a settled status, a streak of failed probes takes a backend
  -- down just when it reaches the fail threshold, counted with the failures before; a backend that
  -- is down stays down.
  pub healthy-run_failures :
      (n : ℕ) (s : BackendStatus)
      → IsSettled f r s
      → (run config (replicate n true) s).healthy ≡ (s.healthy && ltb (s.consecutive_fails + n) f)
  unfolding run record_result
  healthy-run_failures zero s h = ground arith
  healthy-run_failures (suc n) s h = ground (
    arith,
    record_result-IsSettled true s h,
    healthy-run_failures n (record_result config true s),
  )

  -- With positive thresholds, from a settled status, a streak of successful probes brings a
  -- backend up just when it reaches the rise threshold, counted with the successes before; a
  -- backend that is up stays up.
  pub healthy-run_successes :
      (n : ℕ) (s : BackendStatus)
      → IsSettled f r s
      → (run config (replicate n false) s).healthy ≡ (s.healthy || leb r (s.consecutive_ok + n))
  unfolding run record_result
  healthy-run_successes zero s h = ground arith
  healthy-run_successes (suc n) s h = ground (
    arith,
    record_result-IsSettled false s h,
    healthy-run_successes n (record_result config false s),
  )

-- How many outcomes at the end of a list are of the given kind, after `n` of that kind.
unfoldable pub trailing : Bool → ℕ → List Bool → ℕ
trailing kind n [] = n
trailing kind n (o ∷ rest) = trailing kind (if bool_beq kind o then n + 1 else 0) rest

-- After any history the counters of failures and of successes are the numbers of probes of the one
-- kind at the end of the history, after what was counted before.
pub counters-run :
    (config : ServiceCheckConfig) (outcomes : List Bool) (s : BackendStatus)
    → ((run config outcomes s).consecutive_fails ≡ trailing true s.consecutive_fails outcomes)
      × ((run config outcomes s).consecutive_ok ≡ trailing false s.consecutive_ok outcomes)
unfolding run trailing record_result
counters-run config [] s = (refl, refl)
counters-run config (true ∷ rest) s = counters-run config rest (record_result config true s)
counters-run config (false ∷ rest) s = counters-run config rest (record_result config false s)

run-append :
    (config : ServiceCheckConfig) (xs : List Bool) (o : Bool) (s : BackendStatus)
    → run config (xs ++ o ∷ []) s ≡ record_result config o (run config xs s)
unfolding run
run-append config [] o s = refl
run-append config (x ∷ xs) o s = run-append config xs o (record_result config x s)

abbrev pub fresh : String → ℕ → BackendStatus
fresh address token = record {
  address = address;
  consecutive_fails = 0;
  consecutive_ok = 0;
  healthy = true;
  token = token;
}

module _ (config : ServiceCheckConfig) (f r : ℕ) (fails_at : config.fail_count ≡ pos f)
    (rises_at : config.rise_count ≡ pos r) (f_pos : 0 < f) (r_pos : 0 < r) where
  -- From a fresh status with positive thresholds, a probe that takes the backend down is the last
  -- of exactly as many failures as the threshold asks for, and one that brings it up is the last
  -- of exactly as many successes.
  pub verdict_change :
      (outcomes : List Bool) (o : Bool) (address : String) (token : ℕ)
      → let before = run config outcomes (fresh address token) in
        let after = run config (outcomes ++ o ∷ []) (fresh address token) in
        (before.healthy ≡ true → after.healthy ≡ false → trailing true 0 (outcomes ++ o ∷ []) ≡ f)
        × (before.healthy ≡ false
            → after.healthy ≡ true
            → trailing false 0 (outcomes ++ o ∷ []) ≡ r)
  verdict_change outcomes o address token =
      let s = run config outcomes (fresh address token) in
      let settled =
        run-IsSettled config f r fails_at rises_at f_pos r_pos outcomes (fresh address token)
          (record { one_run = inl refl; while_up = λ _. f_pos; while_down = λ _. r_pos }) in
      let flip = record_result-flip config f r fails_at rises_at f_pos r_pos o s settled in
      let counts = counters-run config (outcomes ++ o ∷ []) (fresh address token) in
      let e = run-append config outcomes o (fresh address token) in ground (arith, flip, counts, e)
