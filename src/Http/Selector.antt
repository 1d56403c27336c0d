-- ===== src/Http/Selector.antt =====
-- pkg/http/selector.go: the next backend of an HTTP service, with the wrap-around of its counter.
pub mod Round
use fast_vip.Prelude.{
  ℕ, zero, suc, ◌+◌, ◌-◌, ◌%◌, ◌^◌, ℤ, pos, negsuc, String, List, [], ◌∷◌, Option, none, some,
  if◌then◌else◌, ltb, nat_beq, length, get_elem?,
}

-- What the load balancer needs of a Service.
pub record HttpService : Type 0 where
  pub backends : List String
  pub next : ℤ

-- A backend, or the panic of an index out of range.
pub data Pick : Type 0 where
  picked : String → Pick
  panics : Pick

abbrev pub picked_or : Option String → Pick
picked_or none = panics
picked_or (some b) = picked b

-- `s.next++` on a 64-bit int.
unfoldable pub increment : ℤ → ℤ
increment (pos n) = if ltb (n + 1) (2 ^ 63) then pos (n + 1) else negsuc (2 ^ 63 - 1)
increment (negsuc zero) = pos 0
increment (negsuc (suc n)) = negsuc n

-- `s.Backends[s.next%len(s.Backends)]`: the remainder has the sign of the counter.
unfoldable pub at_counter : List String → ℤ → Pick
at_counter bs (pos n) = picked_or (get_elem? bs (n % length bs))
at_counter bs (negsuc n) =
    if nat_beq ((n + 1) % length bs) 0 then picked_or (get_elem? bs 0) else panics

unfoldable pub next_backend : HttpService → Pick × HttpService
next_backend s = elim s.backends [
  | [] ↦ (picked "", s)
  | b ∷ bs ↦ (at_counter (b ∷ bs) s.next, record s { next = increment s.next })
]
