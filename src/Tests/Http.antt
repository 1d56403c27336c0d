-- ===== src/Tests/Http.antt =====
-- The theorems about the pool of connections at short runs.
use fast_vip.Prelude.{
  String, arith, ℕ, ◌+◌, pos, List, [], ◌∷◌, some, ◌≡◌, refl, lookup, written_order, string_eq,
}
use fast_vip.Http.Pool.{PooledConn, ConnPool, new_conn_pool, close}
use fast_vip.Http.Selector.{picked}
use fast_vip.Http.Selector.Round
use fast_vip.Http.Pool.Counts
use fast_vip.Http.Pool.Counts.{total, accounted, held}
use fast_vip.Http.Pool.Bounded
use fast_vip.Http.Pool.Bounded.{PoolCall, gets, puts, cleans, closes, IsBounded, brought}

abbrev conn : ℕ → PooledConn
conn n = record { conn = some n; idle_time = 0 }

abbrev calls : List PoolCall
calls =
    puts 5 "a" (conn 1)
    ∷ puts 6 "a" (conn 2)
    ∷ puts 7 "a" (conn 3)
    ∷ gets "a"
    ∷ cleans 100
    ∷ closes
    ∷ []

run-IsBounded_example :
    IsBounded 2 (Bounded.run written_order calls (new_conn_pool (pos 2) (pos 50) (pos 10)))
run-IsBounded_example = Bounded.run-IsBounded written_order 2 (pos 50) (pos 10) calls

accounted-run_example :
    accounted (Bounded.run written_order calls (new_conn_pool (pos 2) (pos 50) (pos 10)))
      + Bounded.taken written_order calls (new_conn_pool (pos 2) (pos 50) (pos 10))
    ≡ brought calls
accounted-run_example = Bounded.accounted-run written_order 2 (pos 50) (pos 10) calls

abbrev two_idle : ConnPool
two_idle = record (new_conn_pool (pos 2) (pos 50) (pos 10)) {
  idle = ("a", conn 1 ∷ conn 2 ∷ []) ∷ [];
}

close_empties_example :
    (total (close written_order two_idle).idle ≡ 0)
    × ((close written_order two_idle).closed ≡ held two_idle.idle)
close_empties_example =
    Counts.close_empties written_order two_idle (unfold lookup in (refl, tt)) refl

abbrev three : List String
three = "a" ∷ "b" ∷ "c" ∷ []

picks-round_example :
    Round.picks 3 (record { backends = three; next = pos 6 })
    ≡ picked "a" ∷ picked "b" ∷ picked "c" ∷ []
picks-round_example = Round.picks-round three 6 (ground arith) (ground arith)
