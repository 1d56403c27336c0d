-- ===== src/Http/Selector/Round.antt =====
-- Rounds of nextBackend, pkg/http/selector.go.
use fast_vip.Prelude.{
  ℕ, zero, suc, ◌+◌, ◌%◌, ◌^◌, ◌<◌, pos, String, List, [], ◌∷◌, ◌++◌, map, some, ◌≡◌, refl, sym, ap,
  ◌∙◌, length, length-append, get_elem?, arith,
}
use native.Mathlib.Nat.{suc-mod, mod-eq_of_lt}
use fast_vip.Http.Selector.{
  HttpService, Pick, picked, picked_or, increment, at_counter, next_backend,
}

-- The results of a number of calls in a row.
unfoldable pub picks : ℕ → HttpService → List Pick
picks zero s = []
picks (suc n) s = let (p, s') = next_backend s in p ∷ picks n s'

get_elem-append :
    (pre post : List String) (b : String) → get_elem? (pre ++ b ∷ post) (length pre) ≡ some b
get_elem-append [] post b = refl
get_elem-append (x ∷ pre) post b = get_elem-append pre post b

next_backend-at :
    (bs : List String) (n : ℕ)
    → 0 < length bs
    → n + 1 < 2 ^ 63
    → next_backend (record { backends = bs; next = pos n })
      ≡ (picked_or (get_elem? bs (n % length bs)), record { backends = bs; next = pos (n + 1) })
unfolding next_backend at_counter increment
next_backend-at [] n p q = absurd (ground arith)
next_backend-at (b ∷ bs) n p q = ground arith

append-append : (pre post : List String) (b : String) → (pre ++ b ∷ []) ++ post ≡ pre ++ b ∷ post
append-append [] post b = refl
append-append (x ∷ pre) post b = ap (λ (ys : List String). x ∷ ys) (append-append pre post b)

-- The counter's remainder after one more call, while the round goes on.
next_remainder : (n len i : ℕ) → n % len ≡ i → suc i < len → (n + 1) % len ≡ suc i
next_remainder n len i e lt =
    ap (λ (x : ℕ). x % len) (omega arith)
    ∙ suc-mod n len
    ∙ ap (λ (x : ℕ). suc x % len) e
    ∙ mod-eq_of_lt lt

picks_from :
    (bs pre post : List String) (n : ℕ)
    → bs ≡ pre ++ post
    → n + length post < 2 ^ 63
    → (0 < length post → n % length bs ≡ length pre)
    → picks (length post) (record { backends = bs; next = pos n }) ≡ map picked post
unfolding picks
picks_from bs pre [] n e q at_ = refl
picks_from bs pre (b ∷ post) n e q at_ =
    let size : length bs ≡ length pre + suc (length post) =
      ap (λ (xs : List String). length xs) e ∙ length-append pre (b ∷ post) in
    let here : n % length bs ≡ length pre = at_ (omega arith) in
    let elem : get_elem? bs (n % length bs) ≡ some b =
      ap (λ (i : ℕ). get_elem? bs i) here
      ∙ ap (λ (xs : List String). get_elem? xs (length pre)) e
      ∙ get_elem-append pre post b in
    let longer : length (pre ++ b ∷ []) ≡ suc (length pre) =
      length-append pre (b ∷ []) ∙ omega arith in
    rw (next_backend-at bs n (omega (arith, size)) (omega arith), elem)
      (ap (λ (ps : List Pick). picked b ∷ ps)
        (picks_from bs (pre ++ b ∷ []) post (n + 1) (e ∙ sym (append-append pre post b))
          (omega arith)
          (λ p. next_remainder n (length bs) (length pre) here (omega (arith, size)) ∙ sym longer)))

-- While the 64-bit counter does not wrap, as many calls of nextBackend as there are backends, from
-- a counter that is a multiple of their number, give each backend once, in order.
pub picks-round :
    (bs : List String) (n : ℕ)
    → n % length bs ≡ 0
    → n + length bs < 2 ^ 63
    → picks (length bs) (record { backends = bs; next = pos n }) ≡ map picked bs
picks-round bs n e q = picks_from bs [] bs n refl q (λ p. e)
