-- ===== src/TrafficLog/Collector/Carry.antt =====
-- What the collector remembers of one key, pkg/trafficlog/collector.go.
use fast_vip.Prelude.{
  ℕ, ◌+◌, String, Bool, true, false, [], ◌∷◌, Option, none, some, ◌≡◌, refl, if◌then◌else◌, ltb,
  ==_iff, string_eq, Dict, lookup, insert, is_some, IsUnique, lookup-insert, insert-IsUnique,
  MapRange, arith,
}
use fast_vip.TrafficLog.Collector.{
  Seen, max_absent_polls, polls_of, nothing_seen, carry_forward, note_current, next_seen,
}

-- The value of one key at its last sight, and for how many polls it has been absent since.
pub record Memory (V : Type 0) : Type 0 where
  pub last : Option V
  pub absent : ℕ

abbrev pub memory_of : {V : Type 0} → String → Seen V → Memory V
memory_of key seen = record {
  last = lookup key seen.prev;
  absent = polls_of (lookup key seen.absent_polls);
}

-- A poll that sees the key remembers what it sees; the value of an absent key is kept for a bounded
-- number of polls.
unfoldable pub remember : {V : Type 0} → Option V → Memory V → Memory V
remember (some v) m = record { last = some v; absent = 0 }
remember none m = elim m.last [
  | none ↦ record { last = none; absent = 0 }
  | some v ↦
      if ltb max_absent_polls (m.absent + 1)
      then record { last = none; absent = 0 }
      else record { last = some v; absent = m.absent + 1 }
]

module _ {V : Type 0} where
  lookup-note_current :
      (es prev : Dict String V) (j : String)
      → IsUnique es
      → lookup j (note_current es prev)
        ≡ elim (lookup j es) [ none ↦ lookup j prev | some v ↦ some v ]
  unfolding note_current lookup
  lookup-note_current [] prev j u = refl
  lookup-note_current ((k, v) ∷ es) prev j u =
      ground (
        arith,
        lookup-note_current es (insert k v prev) j u.1,
        lookup-insert k j v prev,
        ==_iff k j,
      )

  note_current-IsUnique :
      (es prev : Dict String V) → IsUnique prev → IsUnique (note_current es prev)
  unfolding note_current
  note_current-IsUnique [] prev u = u
  note_current-IsUnique ((k, v) ∷ es) prev u =
      note_current-IsUnique es (insert k v prev) (insert-IsUnique k v prev u)

  module _ (current : Dict String V) (absent : Dict String ℕ) where
    -- Whether an absent key is kept.
    abbrev stays : String → Bool
    stays j =
        if is_some (lookup j current)
        then false
        else if ltb max_absent_polls (polls_of (lookup j absent) + 1)
        then false
        else true

    abbrev kept_entry : String → V → Seen V → Seen V
    kept_entry k v acc =
        let polls = polls_of (lookup k absent) + 1 in
        if is_some (lookup k current)
        then acc
        else if ltb max_absent_polls polls
        then acc
        else record { prev = insert k v acc.prev; absent_polls = insert k polls acc.absent_polls }

    kept_entry-IsUnique :
        (k : String) (v : V) (acc : Seen V) → IsUnique acc.prev → IsUnique (kept_entry k v acc).prev
    kept_entry-IsUnique k v acc u = ground (arith, insert-IsUnique k v acc.prev u)

    carry_forward-IsUnique :
        (es : Dict String V) (acc : Seen V)
        → IsUnique acc.prev
        → IsUnique (carry_forward current absent es acc).prev
    unfolding carry_forward
    carry_forward-IsUnique [] acc u = u
    carry_forward-IsUnique ((k, v) ∷ es) acc u =
        carry_forward-IsUnique es (kept_entry k v acc) (kept_entry-IsUnique k v acc u)

    prev-carry_forward :
        (es : Dict String V) (acc : Seen V) (j : String)
        → IsUnique es
        → lookup j (carry_forward current absent es acc).prev ≡ (
            if stays j
            then (elim (lookup j es) [ none ↦ lookup j acc.prev | some v ↦ some v ])
            else lookup j acc.prev)
    unfolding carry_forward lookup
    prev-carry_forward [] acc j u = ground arith
    prev-carry_forward ((k, v) ∷ es) acc j u = ground (
      arith,
      prev-carry_forward es (kept_entry k v acc) j u.1,
      u.0,
      lookup-insert k j v acc.prev,
      ==_iff k j,
    )

    absent-carry_forward :
        (es : Dict String V) (acc : Seen V) (j : String)
        → IsUnique es
        → lookup j (carry_forward current absent es acc).absent_polls ≡ (
            if stays j
            then (elim (lookup j es) [
              | none ↦ lookup j acc.absent_polls
              | some v ↦ some (polls_of (lookup j absent) + 1)
            ])
            else lookup j acc.absent_polls)
    unfolding carry_forward lookup
    absent-carry_forward [] acc j u = ground arith
    absent-carry_forward ((k, v) ∷ es) acc j u = ground (
      arith,
      absent-carry_forward es (kept_entry k v acc) j u.1,
      u.0,
      lookup-insert k j (polls_of (lookup k absent) + 1) acc.absent_polls,
      ==_iff k j,
    )

module _ (rng : MapRange) {V : Type 0} (current : Dict String V) (seen : Seen V) where
  pub next_seen-IsUnique : IsUnique (next_seen rng current seen).prev
  unfolding next_seen
  next_seen-IsUnique =
      note_current-IsUnique (rng.order String V current)
        (carry_forward current seen.absent_polls (rng.order String V seen.prev) nothing_seen).prev
        (carry_forward-IsUnique current seen.absent_polls (rng.order String V seen.prev)
          nothing_seen tt)

  -- If the maps hold each key once, a poll treats each key on its own, whatever the order of the
  -- maps: what is remembered of it afterwards depends only on its entry in the snapshot and on
  -- what was remembered before. A key that is seen is remembered as it is seen, and one that is
  -- absent for up to 720 polls keeps its value.
  pub next_seen-remember :
      (j : String)
      → IsUnique current
      → IsUnique seen.prev
      → memory_of j (next_seen rng current seen) ≡ remember (lookup j current) (memory_of j seen)
  unfolding next_seen remember lookup
  next_seen-remember j u w = ground (
    arith,
    prev-carry_forward current seen.absent_polls (rng.order String V seen.prev) nothing_seen j
        (rng.order-IsUnique String V seen.prev w),
    absent-carry_forward current seen.absent_polls (rng.order String V seen.prev) nothing_seen j
        (rng.order-IsUnique String V seen.prev w),
    rng.lookup-order String V j current u,
    rng.lookup-order String V j seen.prev w,
    lookup-note_current (rng.order String V current)
        (carry_forward current seen.absent_polls (rng.order String V seen.prev) nothing_seen).prev j
        (rng.order-IsUnique String V current u),
  )
