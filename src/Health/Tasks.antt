-- ===== src/Health/Tasks.antt =====
-- The probing goroutines and the tracked addresses of pkg/healthcheck/manager.go.
use fast_vip.Prelude.{
  ℕ, ◌<◌, String, Bool, true, false, none, some, ◌≡◌, refl, ◌==◌, ==_iff, string_eq, nat_eq, lookup,
  insert, erase, IsUnique, lookup-insert, lookup-erase, insert-IsUnique, erase-IsUnique, Bool-cases,
  inl, inr, arith,
}
use fast_vip.Health.Hysteresis.{fresh}
use fast_vip.Health.{
  ServiceCheckConfig, BackendStatus, Check, HealthManager, start_backend_check, record_result,
}

-- Each tracked address has its goroutine, which is not cancelled and probes that address; each
-- goroutine that is not cancelled is that of a tracked address; tokens are not used again.
pub record IsPaired (m : HealthManager) : Type 0 where
  pub statuses_unique : IsUnique m.statuses
  pub has_check :
      (a : String) (s : BackendStatus)
      → lookup a m.statuses ≡ some s
      → (c : Check) × (lookup s.token m.running ≡ some c) × (c.address ≡ a)
  pub has_status :
      (t : ℕ) (c : Check)
      → lookup t m.running ≡ some c
      → (s : BackendStatus) × (lookup c.address m.statuses ≡ some s) × (s.token ≡ t)
  pub fresh : (t : ℕ) (c : Check) → lookup t m.running ≡ some c → t < m.next_token

pub stop_found :
    (a : String) (s : BackendStatus) (m : HealthManager)
    → lookup a m.statuses ≡ some s
    → IsPaired m
    → IsPaired (record m { statuses = erase a m.statuses; running = erase s.token m.running })
stop_found a s m e p = record {
  statuses_unique = erase-IsUnique a m.statuses p.statuses_unique;
  has_check = λ b x found.
      let old : lookup b m.statuses ≡ some x = ground (arith, lookup-erase a b m.statuses) in
      let (c, hc, ha) = p.has_check b x old in
      let (c', hc', ha') = p.has_check a s e in
      (
        c,
        ground (
          arith,
          lookup-erase s.token x.token m.running,
          lookup-erase a b m.statuses,
          ==_iff a b,
          ==_iff s.token x.token,
        ),
        ha,
      );
  has_status = λ t c found.
      let old : lookup t m.running ≡ some c = ground (arith, lookup-erase s.token t m.running) in
      let (x, hx, ht) = p.has_status t c old in
      (
        x,
        ground (
          arith,
          lookup-erase s.token t m.running,
          lookup-erase a c.address m.statuses,
          ==_iff a c.address,
          ==_iff s.token t,
        ),
        ht,
      );
  fresh = λ t c found. ground (arith, lookup-erase s.token t m.running, p.fresh t c);
}

pub start-IsPaired :
    (a : String) (config : ServiceCheckConfig) (m : HealthManager)
    → lookup a m.statuses ≡ none
    → IsPaired m
    → IsPaired (start_backend_check a config m)
unfolding start_backend_check
start-IsPaired a config m e p = record {
  statuses_unique = insert-IsUnique a (fresh a m.next_token) m.statuses p.statuses_unique;
  has_check = λ b x found.
      let put = lookup-insert a b (fresh a m.next_token) m.statuses in
      elim (Bool-cases (a == b)) [
        | inl same ↦ (
          record { address = a; config = config },
          ground (
            arith,
            put,
            lookup-insert m.next_token x.token (record { address = a; config = config }) m.running,
            ==_iff m.next_token x.token,
          ),
          (==_iff a b).0 same,
        )
        | inr other ↦
            let (c, hc, ha) = p.has_check b x (ground (arith, put)) in
            (
              c,
              ground (
                arith,
                lookup-insert m.next_token x.token (record { address = a; config = config })
                    m.running,
                ==_iff m.next_token x.token,
                p.fresh x.token c hc,
              ),
              ha,
            )
      ];
  has_status = λ t c found.
      let put = lookup-insert m.next_token t (record { address = a; config = config }) m.running in
      elim (Bool-cases (m.next_token == t)) [
        | inl same ↦ (
          fresh a m.next_token,
          ground (
            arith,
            put,
            lookup-insert a c.address (fresh a m.next_token) m.statuses,
            ==_iff a c.address,
          ),
          (==_iff m.next_token t).0 same,
        )
        | inr other ↦
            let (x, hx, ht) = p.has_status t c (ground (arith, put)) in
            (
              x,
              ground (
                arith,
                lookup-insert a c.address (fresh a m.next_token) m.statuses,
                ==_iff a c.address,
              ),
              ht,
            )
      ];
  fresh = λ t c found. ground (
    arith,
    lookup-insert m.next_token t (record { address = a; config = config }) m.running,
    ==_iff m.next_token t,
    p.fresh t c,
  );
}

-- A new verdict on a status leaves its address and its token.
pub record_result-token :
    (config : ServiceCheckConfig) (failed : Bool) (s : BackendStatus)
    → (record_result config failed s).token ≡ s.token
unfolding record_result
record_result-token config true s = refl
record_result-token config false s = refl

pub put_status-IsPaired :
    (a : String) (s s' : BackendStatus) (m : HealthManager)
    → lookup a m.statuses ≡ some s
    → s'.token ≡ s.token
    → IsPaired m
    → IsPaired (record m { statuses = insert a s' m.statuses })
put_status-IsPaired a s s' m e k p = record {
  statuses_unique = insert-IsUnique a s' m.statuses p.statuses_unique;
  has_check = λ b x found. elim (Bool-cases (a == b)) [
    | inl same ↦
        let (c, hc, ha) = p.has_check a s e in
        (c, ground (arith, lookup-insert a b s' m.statuses), ground (arith, ==_iff a b))
    | inr other ↦ p.has_check b x (ground (arith, lookup-insert a b s' m.statuses))
  ];
  has_status = λ t c found.
      let (x, hx, ht) = p.has_status t c found in
      elim (Bool-cases (a == c.address)) [
        | inl same ↦ (
          s',
          ground (arith, lookup-insert a c.address s' m.statuses),
          ground (arith, ==_iff a c.address),
        )
        | inr other ↦ (x, ground (arith, lookup-insert a c.address s' m.statuses), ht)
      ];
  fresh = p.fresh;
}
