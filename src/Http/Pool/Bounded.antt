-- ===== src/Http/Pool/Bounded.antt =====
-- Sequences of calls of the pool of pkg/http/pool.go.
use fast_vip.Prelude.{
  ℕ, ◌+◌, ◌≤◌, pos, String, true, List, [], ◌∷◌, ◌++◌, some, ◌≡◌, refl, ap, sym, ◌∙◌, if◌then◌else◌,
  length, length-append, lookup, IsUnique, is_some, string_eq, insert-IsUnique, erase-IsUnique,
  MapRange, Every, if_intro, Every-empty, Every-head, Every-tail, ℤ, insert-Every, erase-Every,
  Bool-cases, Option-cases, inl, inr, arith,
}
use fast_vip.Http.Pool.{
  PooledConn, Idle, ConnPool, conns_of, store, split_last, get, put, discard, sift,
  cleanup_backends, drain, cleanup, close, new_conn_pool,
}
use fast_vip.Http.Pool.Counts.{
  accounted, store-IsUnique, length-split_last, length-sift, conns-cases, accounted-get,
  accounted-put, accounted-cleanup, total-close,
}

-- Each backend stands once, with at most `max` connections.
pub record IsBounded (max : ℕ) (p : ConnPool) : Type 0 where
  pub unique : IsUnique p.idle
  pub bounded : Every (λ k cs. length cs ≤ max) p.idle
  pub limit : p.max_idle ≡ pos max

store-Every :
    (max : ℕ) (k : String) (cs : List PooledConn) (m : Idle)
    → length cs ≤ max
    → Every (λ k cs. length cs ≤ max) m
    → Every (λ k cs. length cs ≤ max) (store k cs m)
unfolding store
store-Every max k [] m le b = erase-Every (λ k cs. length cs ≤ max) k m b
store-Every max k (c ∷ cs) m le b = insert-Every (λ k cs. length cs ≤ max) k (c ∷ cs) m le b

bounded_conns :
    (max : ℕ) (m : Idle) (k : String)
    → Every (λ k cs. length cs ≤ max) m
    → length (conns_of (lookup k m)) ≤ max
bounded_conns max m k b = elim (Option-cases (lookup k m)) [
  | inl e ↦ rw e (ground arith)
  | inr (cs, e) ↦ rw e (b k cs e)
]

get-IsBounded :
    (max : ℕ) (backend : String) (p : ConnPool) → IsBounded max p → IsBounded max (get backend p).1
unfolding get
get-IsBounded max backend p b = elim (conns-cases (conns_of (lookup backend p.idle))) [
  | inl e ↦ rw (e, get) b
  | inr (c, cs, e) ↦
      rw (e, get)
        (record {
          unique = store-IsUnique backend (split_last c cs).0 p.idle b.unique;
          bounded =
              store-Every max backend (split_last c cs).0 p.idle
                (ground (
                  arith,
                  length-split_last c cs,
                  bounded_conns max p.idle backend b.bounded,
                  ap (λ (xs : List PooledConn). length xs) e,
                ))
                b.bounded;
          limit = b.limit;
        })
]

put-IsBounded :
    (max now : ℕ) (backend : String) (c : PooledConn) (p : ConnPool)
    → IsBounded max p
    → IsBounded max (put now backend c p)
unfolding put
put-IsBounded max now backend c p b =
    let conns = conns_of (lookup backend p.idle) in
    let more = conns ++ record c { idle_time = now } ∷ [] in
    record {
      unique = ground (arith, b.unique, insert-IsUnique backend more p.idle b.unique);
      bounded = λ k cs found. ground (
        arith,
        b.bounded k cs,
        b.limit,
        length-append conns (record c { idle_time = now } ∷ []),
        λ (le : length more ≤ max).
            insert-Every (λ k cs. length cs ≤ max) backend more p.idle le b.bounded k cs,
      );
      limit = ground (arith, b.limit);
    }

cleanup_backends-IsBounded :
    (max now : ℕ) (es : Idle) (p : ConnPool)
    → IsUnique es
    → Every (λ k cs. length cs ≤ max) es
    → IsBounded max p
    → IsBounded max (cleanup_backends now es p)
unfolding cleanup_backends
cleanup_backends-IsBounded max now [] p u w b = b
cleanup_backends-IsBounded max now ((k, conns) ∷ es) p u w b =
    let (kept, expired) = sift now p.idle_timeout conns in
    let le = Every-head (λ k cs. length cs ≤ max) k conns es w in
    cleanup_backends-IsBounded max now es _ u.1
      (Every-tail (λ k cs. length cs ≤ max) k conns es u w)
      (record {
        unique = store-IsUnique k kept p.idle b.unique;
        bounded =
            store-Every max k kept p.idle (ground (arith, length-sift now p.idle_timeout conns))
              b.bounded;
        limit = b.limit;
      })

drain-IsBounded :
    (max : ℕ) (es : Idle) (p : ConnPool) → IsBounded max p → IsBounded max (drain es p)
unfolding drain
drain-IsBounded max [] p b = b
drain-IsBounded max ((k, conns) ∷ es) p b = drain-IsBounded max es _ (record {
  unique = erase-IsUnique k p.idle b.unique;
  bounded = erase-Every (λ k cs. length cs ≤ max) k p.idle b.bounded;
  limit = b.limit;
})

-- A call of the pool, by a proxy or by the cleanup goroutine.
pub data PoolCall : Type 0 where
  gets : String → PoolCall
  puts : ℕ → String → PooledConn → PoolCall
  discards : PooledConn → PoolCall
  cleans : ℕ → PoolCall
  closes : PoolCall

-- The connections that a call brings to the pool: a nil connection is none.
abbrev pub brought : List PoolCall → ℕ
brought [] = 0
brought (puts now backend c ∷ es) = (if is_some c.conn then 1 else 0) + brought es
brought (discards c ∷ es) = (if is_some c.conn then 1 else 0) + brought es
brought (gets backend ∷ es) = brought es
brought (cleans now ∷ es) = brought es
brought (closes ∷ es) = brought es

module _ (rng : MapRange) where
  unfoldable pub step : PoolCall → ConnPool → ConnPool
  step (gets backend) p = (get backend p).1
  step (puts now backend c) p = put now backend c p
  step (discards c) p = discard (some c) p
  step (cleans now) p = cleanup rng now p
  step closes p = close rng p

  unfoldable pub run : List PoolCall → ConnPool → ConnPool
  run [] p = p
  run (e ∷ es) p = run es (step e p)

  -- How many calls of `get` in a run find a connection.
  unfoldable pub taken : List PoolCall → ConnPool → ℕ
  taken [] p = 0
  taken (gets backend ∷ es) p =
      (if is_some (get backend p).0 then 1 else 0) + taken es (step (gets backend) p)
  taken (puts now backend c ∷ es) p = taken es (step (puts now backend c) p)
  taken (discards c ∷ es) p = taken es (step (discards c) p)
  taken (cleans now ∷ es) p = taken es (step (cleans now) p)
  taken (closes ∷ es) p = taken es (step closes p)

  step-IsBounded :
      (max : ℕ) (e : PoolCall) (p : ConnPool) → IsBounded max p → IsBounded max (step e p)
  unfolding step cleanup close discard
  step-IsBounded max (gets backend) p b = get-IsBounded max backend p b
  step-IsBounded max (puts now backend c) p b = put-IsBounded max now backend c p b
  step-IsBounded max (discards c) p b = elim (Option-cases c.conn) [
    | inl e ↦ rw (e, step, discard) b
    | inr (id, e) ↦
        rw (e, step, discard) (record { unique = b.unique; bounded = b.bounded; limit = b.limit })
  ]
  step-IsBounded max (cleans now) p b =
      cleanup_backends-IsBounded max now (rng.order String (List PooledConn) p.idle) p
        (rng.order-IsUnique String (List PooledConn) p.idle b.unique)
        (λ k cs found.
          b.bounded k cs
            (sym (rng.lookup-order String (List PooledConn) k p.idle b.unique) ∙ found))
        b
  step-IsBounded max closes p b = if_intro (IsBounded max) p.stopped p _ b (
      drain-IsBounded max (rng.order String (List PooledConn) p.idle) (record p { stopped = true })
        (record { unique = b.unique; bounded = b.bounded; limit = b.limit }))

  run_from-IsBounded :
      (max : ℕ) (es : List PoolCall) (p : ConnPool) → IsBounded max p → IsBounded max (run es p)
  unfolding run
  run_from-IsBounded max [] p b = b
  run_from-IsBounded max (e ∷ es) p b =
      run_from-IsBounded max es (step e p) (step-IsBounded max e p b)

  -- In any sequence of calls on a new pool whose limit is not negative, each backend stands once,
  -- with at most as many idle connections as the limit.
  pub run-IsBounded :
      (max : ℕ) (timeout interval : ℤ) (es : List PoolCall)
      → IsBounded max (run es (new_conn_pool (pos max) timeout interval))
  run-IsBounded max timeout interval es =
      run_from-IsBounded max es (new_conn_pool (pos max) timeout interval)
        (record { unique = tt; bounded = Every-empty (λ k cs. length cs ≤ max); limit = refl })

  accounted-discard :
      (c : PooledConn) (p : ConnPool)
      → accounted (discard (some c) p) ≡ accounted p + (if is_some c.conn then 1 else 0)
  unfolding discard
  accounted-discard c p = ground (arith, length-append p.closed (c ∷ []))

  accounted-close : (p : ConnPool) → IsUnique p.idle → accounted (close rng p) ≡ accounted p
  accounted-close p u = elim (Bool-cases p.stopped) [
    | inl e ↦ unfold close in (rw (e, close) refl)
    | inr e ↦ ground (arith, total-close rng p u e)
  ]

  accounted_from-run :
      (max : ℕ) (es : List PoolCall) (p : ConnPool)
      → IsBounded max p
      → accounted (run es p) + taken es p ≡ accounted p + brought es
  unfolding run taken step
  accounted_from-run max [] p b = refl
  accounted_from-run max (e ∷ es) p b =
      let rest = accounted_from-run max es (step e p) (step-IsBounded max e p b) in
      (elim e
          as (λ c.
            (accounted (run es (step c p)) + taken es (step c p)
              ≡ accounted (step c p) + brought es)
            → accounted (run es (step c p)) + taken (c ∷ es) p ≡ accounted p + brought (c ∷ es)) [
              | gets backend ↦ λ r. ground (arith, accounted-get backend p b.unique)
              | puts now backend c ↦ λ r. ground (arith, accounted-put now backend c p)
              | discards c ↦ λ r. ground (arith, accounted-discard c p)
              | cleans now ↦ λ r. ground (arith, accounted-cleanup rng now p b.unique)
              | closes ↦ λ r. ground (arith, accounted-close p b.unique)
            ])
        rest

  -- In any sequence of calls on a new pool whose limit is not negative, the connections that are
  -- idle, that the pool closed, and that get gave out are together as many as those brought to it
  -- by put and discard.
  pub accounted-run :
      (max : ℕ) (timeout interval : ℤ) (es : List PoolCall)
      → let p = new_conn_pool (pos max) timeout interval in
        accounted (run es p) + taken es p ≡ brought es
  accounted-run max timeout interval es =
      let start : IsBounded max (new_conn_pool (pos max) timeout interval) = record {
        unique = tt;
        bounded = Every-empty (λ k cs. length cs ≤ max);
        limit = refl;
      } in
      ground (arith, accounted_from-run max es (new_conn_pool (pos max) timeout interval) start)
