-- ===== src/Http/Pool.antt =====
-- pkg/http/pool.go: the idle connections by backend. A connection is a number; `closed` lists those
-- that the pool closed. A call holds the mutex until it closes connections, so it is one step. Times
-- are in nanoseconds; the clock and the ticker of cleanupLoop are arguments.
pub mod Counts
pub mod Proper
pub mod Bounded
use fast_vip.Prelude.{
  ℕ, ◌-◌, ℤ, pos, negsuc, String, Bool, true, false, ◌||◌, not, List, [], ◌∷◌, ◌++◌, Option, none,
  some, if◌then◌else◌, leb, le_zero, int_ltb, length, Dict, lookup, insert, erase, string_eq,
  MapRange,
}

pub record PooledConn : Type 0 where
  pub conn : Option ℕ
  pub idle_time : ℕ

abbrev pub Idle : Type 0
Idle = Dict String (List PooledConn)

pub record ConnPool : Type 0 where
  pub idle : Idle
  pub max_idle : ℤ
  pub idle_timeout : ℤ
  pub cleanup_interval : ℤ
  -- closeOnce
  pub stopped : Bool
  pub closed : List PooledConn

-- The goroutine that this starts panics in time.NewTicker unless the interval is positive, and the
-- process ends: a pool stands for one of a process that runs.
abbrev pub new_conn_pool : ℤ → ℤ → ℤ → ConnPool
new_conn_pool max_idle idle_timeout cleanup_interval = record {
  idle = [];
  max_idle = max_idle;
  idle_timeout = idle_timeout;
  cleanup_interval = cleanup_interval;
  stopped = false;
  closed = [];
}

-- `p.idle[backend]` of a missing key is nil.
abbrev pub conns_of : Option (List PooledConn) → List PooledConn
conns_of none = []
conns_of (some cs) = cs

-- `delete` if nothing is left, else a write.
unfoldable pub store : String → List PooledConn → Idle → Idle
store backend [] idle = erase backend idle
store backend (c ∷ cs) idle = insert backend (c ∷ cs) idle

-- All but the last of `c ∷ cs`, and the last.
unfoldable pub split_last : PooledConn → List PooledConn → List PooledConn × PooledConn
split_last c [] = ([], c)
split_last c (d ∷ ds) = let (front, last) = split_last d ds in (c ∷ front, last)

unfoldable pub get : String → ConnPool → Option PooledConn × ConnPool
get backend p = elim (conns_of (lookup backend p.idle)) [
  | [] ↦ (none, p)
  | c ∷ cs ↦
      let (front, last) = split_last c cs in
      (some last, record p { idle = store backend front p.idle })
]

-- `len(conns) >= maxIdle`
abbrev pub is_full : ℕ → ℤ → Bool
is_full n (pos max) = leb max n
is_full n (negsuc max) = true

unfoldable pub put : ℕ → String → PooledConn → ConnPool → ConnPool
put now backend c p = elim c.conn [
  | none ↦ p
  | some id ↦
      let conns = conns_of (lookup backend p.idle) in
      if le_zero p.max_idle || is_full (length conns) p.max_idle
      then record p { closed = p.closed ++ c ∷ [] }
      else record p { idle = insert backend (conns ++ record c { idle_time = now } ∷ []) p.idle }
]

unfoldable pub discard : Option PooledConn → ConnPool → ConnPool
discard none p = p
discard (some c) p = elim c.conn [ none ↦ p | some id ↦ record p { closed = p.closed ++ c ∷ [] } ]

-- `now.Sub(t)`
abbrev pub age : ℕ → ℕ → ℤ
age now t = if leb t now then pos (now - t) else negsuc (t - now - 1)

-- The connections that stay, and those that have been idle for too long.
unfoldable pub sift : ℕ → ℤ → List PooledConn → List PooledConn × List PooledConn
sift now timeout [] = ([], [])
sift now timeout (c ∷ cs) =
    let (kept, expired) = sift now timeout cs in
    if int_ltb timeout (age now c.idle_time) then (kept, c ∷ expired) else (c ∷ kept, expired)

unfoldable pub cleanup_backends : ℕ → Idle → ConnPool → ConnPool
cleanup_backends now [] p = p
cleanup_backends now ((backend, conns) ∷ rest) p =
    let (kept, expired) = sift now p.idle_timeout conns in
    cleanup_backends now rest
      (record p { idle = store backend kept p.idle; closed = p.closed ++ expired })

unfoldable pub drain : Idle → ConnPool → ConnPool
drain [] p = p
drain ((backend, conns) ∷ rest) p =
    drain rest (record p { idle = erase backend p.idle; closed = p.closed ++ conns })

module _ (rng : MapRange) where
  unfoldable pub cleanup : ℕ → ConnPool → ConnPool
  cleanup now p = cleanup_backends now (rng.order String (List PooledConn) p.idle) p

  -- Only the first call does anything.
  unfoldable pub close : ConnPool → ConnPool
  close p =
      if p.stopped
      then p
      else drain (rng.order String (List PooledConn) p.idle) (record p { stopped = true })
