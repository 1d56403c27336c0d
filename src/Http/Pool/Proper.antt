-- ===== src/Http/Pool/Proper.antt =====
-- The pool of pkg/http/pool.go as a map of connections that are there.
use fast_vip.Prelude.{
  ℕ, ◌+◌, String, true, List, [], ◌∷◌, ◌++◌, some, Option-cases, inl, inr, ◌≡◌, arith, length,
  length-append, lookup, IsUnique, is_some, string_eq, subst, if_intro, le_zero, ◌||◌, insert,
  insert-IsUnique, All, Every, insert-Every, erase-Every,
}
use fast_vip.Http.Pool.{
  PooledConn, ConnPool, is_full, get, put, discard, conns_of, store, split_last,
}
use fast_vip.Http.Pool.Counts.{accounted, store-IsUnique, conns-cases}

abbrev pub HasConn : PooledConn → Type 0
HasConn c = is_some c.conn ≡ true

-- Every idle connection is one, and no backend stands twice.
abbrev pub IsProper : ConnPool → Type 0
IsProper p = IsUnique p.idle × Every (λ backend conns. All HasConn conns) p.idle

All-append : (xs ys : List PooledConn) → All HasConn xs → All HasConn ys → All HasConn (xs ++ ys)
All-append [] ys h k = k
All-append (x ∷ xs) ys h k = (h.0, All-append xs ys h.1 k)

All-split_last :
    (c : PooledConn) (cs : List PooledConn)
    → All HasConn (c ∷ cs)
    → All HasConn (split_last c cs).0 × HasConn (split_last c cs).1
unfolding split_last
All-split_last c [] h = (tt, h.0)
All-split_last c (d ∷ ds) h = let (a, b) = All-split_last d ds h.1 in ((h.0, a), b)

All-conns_of :
    (backend : String) (p : ConnPool) → IsProper p → All HasConn (conns_of (lookup backend p.idle))
All-conns_of backend p h = elim (Option-cases (lookup backend p.idle)) [
  | inl e ↦ rw (e) tt
  | inr (cs, e) ↦ rw (e) (h.1 backend cs e)
]

store-IsProper :
    (backend : String) (cs : List PooledConn) (p : ConnPool)
    → All HasConn cs
    → IsProper p
    → IsProper (record p { idle = store backend cs p.idle })
unfolding store
store-IsProper backend [] p a h = (
  store-IsUnique backend [] p.idle h.0,
  erase-Every (λ backend conns. All HasConn conns) backend p.idle h.1,
)
store-IsProper backend (c ∷ cs) p a h = (
  store-IsUnique backend (c ∷ cs) p.idle h.0,
  insert-Every (λ backend conns. All HasConn conns) backend (c ∷ cs) p.idle a h.1,
)

pub get-IsProper :
    (backend : String) (p : ConnPool)
    → IsProper p
    → IsProper (get backend p).1 × ((c : PooledConn) → (get backend p).0 ≡ some c → HasConn c)
unfolding get
get-IsProper backend p h = elim (conns-cases (conns_of (lookup backend p.idle))) [
  | inl e ↦ rw (e, get) (h, λ c f. absurd (ground (arith, f)))
  | inr (c, cs, e) ↦
      let (front, last) = All-split_last c cs (subst (All HasConn) e (All-conns_of backend p h)) in
      rw (e, get)
        (store-IsProper backend (split_last c cs).0 p front h, λ d f. ground (arith, f, last))
]

pub put-IsProper :
    (now : ℕ) (backend : String) (c : PooledConn) (p : ConnPool)
    → IsProper p
    → IsProper (put now backend c p)
unfolding put
put-IsProper now backend c p h =
    let conns = conns_of (lookup backend p.idle) in
    elim (Option-cases c.conn) [
      | inl e ↦ rw (e, put) h
      | inr (id, e) ↦
          let more = conns ++ record c { idle_time = now } ∷ [] in
          let all =
            All-append conns (record c { idle_time = now } ∷ []) (All-conns_of backend p h)
              (ground (arith, e), tt) in
          rw (e, put)
            (if_intro IsProper (le_zero p.max_idle || is_full (length conns) p.max_idle)
              (record p { closed = p.closed ++ c ∷ [] })
              (record p { idle = insert backend more p.idle }) h
              (
                insert-IsUnique backend more p.idle h.0,
                insert-Every (λ backend conns. All HasConn conns) backend more p.idle all h.1,
              ))
    ]

pub discard_lem :
    (c : PooledConn) (p : ConnPool)
    → HasConn c
    → IsProper p
    → IsProper (discard (some c) p) × (accounted (discard (some c) p) ≡ accounted p + 1)
unfolding discard
discard_lem c p has h = elim (Option-cases c.conn) [
  | inl e ↦ absurd (ground (arith, e, has))
  | inr (id, e) ↦ rw (e, discard) (h, omega (arith, length-append p.closed (c ∷ [])))
]
