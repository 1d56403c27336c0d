-- ===== src/TrafficLog/Collector/Arrow.antt =====
-- The keys "svcKey->dstKey" of pkg/trafficlog/lvs_stats_adapter.go, taken apart by extractBackendAddress of
-- pkg/trafficlog/collector.go.
use Prim.Native.Char.{Char, code}
use Prim.Native.String.{String, [], ◌∷◌, ◌++◌}
use Prim.Native.String.append
use mathlib.Core.List.{List}
use text.Mathlib.TextLemmas.{append-nil, append_assoc}
use fast_vip.Prelude.{false, nat_beq, arith, ◌≡◌, refl, ap, sym, ◌∙◌}
use fast_vip.TrafficLog.Adapter.{full_key}
use fast_vip.TrafficLog.Collector.{extract_backend_address}
use fast_vip.TrafficLog.Collector.Split.{push, is_arrow, split_from, split_arrow}

-- No character of the text ends an arrow.
abbrev pub HasNoTip : String → Type 0
HasNoTip [] = Unit
HasNoTip (c ∷ s) = (nat_beq (code c) b'>' ≡ false) × HasNoTip s

is_arrow-tip : (c d : Char) → nat_beq (code d) b'>' ≡ false → is_arrow c d ≡ false
is_arrow-tip c d h = ground (arith, h)

push-append : (p s : String) (c : Char) → push p c ++ s ≡ p ++ (c ∷ s)
push-append p s c =
    append_assoc p (c ∷ []) s
    ∙ ap (λ t. p ++ t) (append.cons c [] s ∙ ap (λ t. c ∷ t) (append.nil s))

split_from-whole : (p s : String) → HasNoTip s → split_from p s ≡ List.◌∷◌ (p ++ s) List.[]
unfolding split_from
split_from-whole p [] h = ap (λ t. List.◌∷◌ t List.[]) (sym (append-nil p))
split_from-whole p (c ∷ []) h = refl
split_from-whole p (c ∷ d ∷ s) h = rw (is_arrow-tip c d h.1.0) (
    split_from-whole (push p c) (d ∷ s) h.1
    ∙ ap (λ t. List.◌∷◌ t List.[]) (push-append p (d ∷ s) c))

step_over :
    (p t : String) (c x : Char)
    → nat_beq (code x) b'>' ≡ false
    → split_from p (c ∷ x ∷ t) ≡ split_from (push p c) (x ∷ t)
unfolding split_from
step_over p t c x h = rw (is_arrow-tip c x h) refl

arrow : (d : String) → "->" ++ d ≡ "-" ∷ ">" ∷ d
arrow d =
    append.cons "-" ">" d
    ∙ ap (λ t. "-" ∷ t) (append.cons ">" "" d ∙ ap (λ t. ">" ∷ t) (append.nil d))

split_from_here :
    (p d : String) → HasNoTip d → split_from p ("-" ∷ ">" ∷ d) ≡ List.◌∷◌ p (List.◌∷◌ d List.[])
unfolding split_from
split_from_here p d k =
    ap (λ ts. List.◌∷◌ p ts) (split_from-whole "" d k ∙ ap (λ t. List.◌∷◌ t List.[]) (append.nil d))

split_from-arrow :
    (p s d : String)
    → HasNoTip s
    → HasNoTip d
    → split_from p (s ++ ("->" ++ d)) ≡ List.◌∷◌ (p ++ s) (List.◌∷◌ d List.[])
split_from-arrow p [] d h k =
    ap (λ t. split_from p t) (append.nil ("->" ++ d) ∙ arrow d)
    ∙ split_from_here p d k
    ∙ ap (λ q. List.◌∷◌ q (List.◌∷◌ d List.[])) (sym (append-nil p))
split_from-arrow p (c ∷ []) d h k =
    ap (λ t. split_from p t)
      (append.cons c [] ("->" ++ d) ∙ ap (λ t. c ∷ t) (append.nil ("->" ++ d) ∙ arrow d))
    ∙ step_over p (">" ∷ d) c "-" refl
    ∙ split_from_here (push p c) d k
split_from-arrow p (c ∷ e ∷ s) d h k =
    ap (λ t. split_from p t)
      (append.cons c (e ∷ s) ("->" ++ d) ∙ ap (λ t. c ∷ t) (append.cons e s ("->" ++ d)))
    ∙ step_over p (s ++ ("->" ++ d)) c e h.1.0
    ∙ ap (λ t. split_from (push p c) t) (sym (append.cons e s ("->" ++ d)))
    ∙ split_from-arrow (push p c) (e ∷ s) d h.1 k
    ∙ ap (λ q. List.◌∷◌ q (List.◌∷◌ d List.[])) (push-append p (e ∷ s) c)

-- The address that extractBackendAddress takes out of the key of a backend is the one that the key
-- was made with, if neither part has the character '>'.
pub extract-full_key :
    (svc_key dst_key : String)
    → HasNoTip svc_key
    → HasNoTip dst_key
    → extract_backend_address (full_key svc_key dst_key) ≡ dst_key
unfolding extract_backend_address split_arrow
extract-full_key s d h k =
    rw (split_from-arrow "" s d h k, extract_backend_address, split_arrow) refl
