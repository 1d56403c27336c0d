-- ===== src/Http/Pool/Counts.antt =====
-- The numbers of connections that the pool of pkg/http/pool.go holds and has closed.
use mathlib.Core.List.{append_assoc, append-nil}
use fast_vip.Prelude.{
  ℕ, ◌+◌, ℤ, String, true, false, List, [], ◌∷◌, ◌++◌, none, some, ◌≡◌, refl, ap, sym, ◌∙◌, ◌⊎◌,
  if◌then◌else◌, length, length-append, lookup, insert, erase, IsUnique, is_some, string_eq, ◌==◌,
  ==_iff, lookup-insert, lookup-erase, insert-IsUnique, erase-IsUnique, MapRange, inl, inr, arith,
}
use fast_vip.Http.Pool.{
  PooledConn, Idle, ConnPool, conns_of, store, split_last, get, put, sift, cleanup_backends, drain,
  cleanup, close,
}

abbrev pub total : Idle → ℕ
total [] = 0
total ((k, cs) ∷ m) = length cs + total m

-- The connections of the entries, each once.
abbrev pub held : Idle → List PooledConn
held [] = []
held ((k, cs) ∷ m) = cs ++ held m

-- The connections that the pool holds or has closed.
abbrev pub accounted : ConnPool → ℕ
accounted p = total p.idle + length p.closed

total-insert :
    (k : String) (cs : List PooledConn) (m : Idle)
    → total (insert k cs m) + length (conns_of (lookup k m)) ≡ total m + length cs
unfolding insert lookup
total-insert k cs [] = ground arith
total-insert k cs ((j, ds) ∷ m) = ground (arith, total-insert k cs m)

erase-missing : (k : String) (m : Idle) → lookup k m ≡ none → erase k m ≡ m
unfolding erase lookup
erase-missing k [] e = refl
erase-missing k ((j, ds) ∷ m) e = ground (arith, erase-missing k m)

total-erase :
    (k : String) (m : Idle)
    → IsUnique m
    → total (erase k m) + length (conns_of (lookup k m)) ≡ total m
unfolding erase lookup
total-erase k [] u = refl
total-erase k ((j, ds) ∷ m) u = ground (arith, total-erase k m u.1, ==_iff j k, erase-missing k m)

total-store :
    (k : String) (cs : List PooledConn) (m : Idle)
    → IsUnique m
    → total (store k cs m) + length (conns_of (lookup k m)) ≡ total m + length cs
unfolding store
total-store k [] m u = ground (arith, total-erase k m u)
total-store k (c ∷ cs) m u = total-insert k (c ∷ cs) m

pub length-split_last :
    (c : PooledConn) (cs : List PooledConn) → length (split_last c cs).0 ≡ length cs
unfolding split_last
length-split_last c [] = refl
length-split_last c (d ∷ ds) = ground (arith, length-split_last d ds)

pub length-sift :
    (now : ℕ) (timeout : ℤ) (cs : List PooledConn)
    → length (sift now timeout cs).0 + length (sift now timeout cs).1 ≡ length cs
unfolding sift
length-sift now timeout [] = refl
length-sift now timeout (c ∷ cs) = ground (arith, length-sift now timeout cs)

pub store-IsUnique :
    (k : String) (cs : List PooledConn) (m : Idle) → IsUnique m → IsUnique (store k cs m)
unfolding store
store-IsUnique k [] m u = erase-IsUnique k m u
store-IsUnique k (c ∷ cs) m u = insert-IsUnique k (c ∷ cs) m u

lookup-store_other :
    (k j : String) (cs : List PooledConn) (m : Idle)
    → (k == j) ≡ false
    → lookup j (store k cs m) ≡ lookup j m
unfolding store
lookup-store_other k j [] m e = ground (arith, lookup-erase k j m)
lookup-store_other k j (c ∷ cs) m e = ground (arith, lookup-insert k j (c ∷ cs) m)

pub conns-cases :
    (cs : List PooledConn) → (cs ≡ []) ⊎ ((c : PooledConn) × (ds : List PooledConn) × (cs ≡ c ∷ ds))
conns-cases [] = inl refl
conns-cases (c ∷ ds) = inr (c, ds, refl)

-- Taking a connection
pub accounted-get :
    (backend : String) (p : ConnPool)
    → IsUnique p.idle
    → accounted (get backend p).1 + (if is_some (get backend p).0 then 1 else 0) ≡ accounted p
unfolding get
accounted-get backend p u = elim (conns-cases (conns_of (lookup backend p.idle))) [
  | inl e ↦ rw (e, get) (ground arith)
  | inr (c, cs, e) ↦
      rw (e, get)
        (ground (
          arith,
          total-store backend (split_last c cs).0 p.idle u,
          length-split_last c cs,
          ap (λ (xs : List PooledConn). length xs) e,
        ))
]

-- Putting a connection
pub accounted-put :
    (now : ℕ) (backend : String) (c : PooledConn) (p : ConnPool)
    → accounted (put now backend c p) ≡ accounted p + (if is_some c.conn then 1 else 0)
unfolding put
accounted-put now backend c p =
    let conns = conns_of (lookup backend p.idle) in
    let more = conns ++ record c { idle_time = now } ∷ [] in
    ground (
      arith,
      total-insert backend more p.idle,
      length-append conns (record c { idle_time = now } ∷ []),
      length-append p.closed (c ∷ []),
    )

-- A round over some of the entries, each of which still stands in the pool.
accounted-cleanup_backends :
    (now : ℕ) (es : Idle) (p : ConnPool)
    → IsUnique es
    → IsUnique p.idle
    → ((j : String) (cs : List PooledConn) → lookup j es ≡ some cs → lookup j p.idle ≡ some cs)
    → accounted (cleanup_backends now es p) ≡ accounted p
unfolding cleanup_backends lookup
accounted-cleanup_backends now [] p ue u same = refl
accounted-cleanup_backends now ((k, conns) ∷ es) p ue u same =
    let (kept, expired) = sift now p.idle_timeout conns in
    let q = record p { idle = store k kept p.idle; closed = p.closed ++ expired } in
    let here : lookup k p.idle ≡ some conns = same k conns (ground (arith, ==_iff k k)) in
    accounted-cleanup_backends now es q ue.1 (store-IsUnique k kept p.idle u)
      (λ j cs found. ground (arith, lookup-store_other k j kept p.idle, same j cs, ==_iff k j))
    ∙ ground (
      arith,
      total-store k kept p.idle u,
      length-sift now p.idle_timeout conns,
      length-append p.closed expired,
    )

accounted-drain :
    (es : Idle) (p : ConnPool)
    → IsUnique es
    → IsUnique p.idle
    → ((j : String) (cs : List PooledConn) → lookup j es ≡ some cs → lookup j p.idle ≡ some cs)
    → accounted (drain es p) ≡ accounted p
unfolding drain lookup
accounted-drain [] p ue u same = refl
accounted-drain ((k, conns) ∷ es) p ue u same =
    let q = record p { idle = erase k p.idle; closed = p.closed ++ conns } in
    let here : lookup k p.idle ≡ some conns = same k conns (ground (arith, ==_iff k k)) in
    accounted-drain es q ue.1 (erase-IsUnique k p.idle u)
      (λ j cs found. ground (arith, lookup-erase k j p.idle, same j cs, ==_iff k j))
    ∙ ground (arith, total-erase k p.idle u, length-append p.closed conns)

closed-drain : (es : Idle) (p : ConnPool) → (drain es p).closed ≡ p.closed ++ held es
unfolding drain
closed-drain [] p = sym (append-nil p.closed)
closed-drain ((k, conns) ∷ es) p =
    closed-drain es (record p { idle = erase k p.idle; closed = p.closed ++ conns })
    ∙ append_assoc p.closed conns (held es)

lookup-drain :
    (es : Idle) (p : ConnPool) (j : String)
    → lookup j (drain es p).idle ≡ (if is_some (lookup j es) then none else lookup j p.idle)
unfolding drain lookup
lookup-drain [] p j = ground arith
lookup-drain ((k, conns) ∷ es) p j = ground (
  arith,
  lookup-drain es (record p { idle = erase k p.idle; closed = p.closed ++ conns }) j,
  lookup-erase k j p.idle,
)

empty_total : (m : Idle) → ((j : String) → lookup j m ≡ none) → total m ≡ 0
unfolding lookup
empty_total [] e = refl
empty_total ((k, cs) ∷ m) e = absurd (let x = e k in ground (arith, ==_iff k k))

module _ (rng : MapRange) where
  -- A cleanup
  pub accounted-cleanup :
      (now : ℕ) (p : ConnPool) → IsUnique p.idle → accounted (cleanup rng now p) ≡ accounted p
  unfolding cleanup
  accounted-cleanup now p u =
      accounted-cleanup_backends now (rng.order String (List PooledConn) p.idle) p
        (rng.order-IsUnique String (List PooledConn) p.idle u) u
        (λ j cs found. sym (rng.lookup-order String (List PooledConn) j p.idle u) ∙ found)

  pub total-close :
      (p : ConnPool)
      → IsUnique p.idle
      → p.stopped ≡ false
      → (total (close rng p).idle ≡ 0) × (length (close rng p).closed ≡ accounted p)
  unfolding close
  total-close p u open_ =
      let es = rng.order String (List PooledConn) p.idle in
      let p' = record p { stopped = true } in
      let gone = empty_total (drain es p').idle (λ j.
        ground
          (arith, lookup-drain es p' j, rng.lookup-order String (List PooledConn) j p.idle u)) in
      let kept =
        accounted-drain es p' (rng.order-IsUnique String (List PooledConn) p.idle u) u
          (λ j cs found. sym (rng.lookup-order String (List PooledConn) j p.idle u) ∙ found) in
      rw (open_, close) (gone, ground (arith, gone, kept))

  -- Close of a pool that was not closed, which holds each backend once, leaves no idle connection,
  -- and closes each connection that it held, once and in the order in which the runtime gives the
  -- backends, after those that were closed before.
  pub close_empties :
      (p : ConnPool)
      → IsUnique p.idle
      → p.stopped ≡ false
      → (total (close rng p).idle ≡ 0)
        × ((close rng p).closed ≡ p.closed ++ held (rng.order String (List PooledConn) p.idle))
  unfolding close
  close_empties p u open_ = (
    (total-close p u open_).0,
    rw (open_, close)
        (closed-drain (rng.order String (List PooledConn) p.idle) (record p { stopped = true })),
  )
