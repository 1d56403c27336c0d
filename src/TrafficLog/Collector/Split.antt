-- ===== src/TrafficLog/Collector/Split.antt =====
-- strings.Split(key, "->"), by the code points of the text.
use Prim.Native.Char.{Char, code}
use Prim.Native.String.{String, [], ◌∷◌}
use mathlib.Core.List.{List}
use fast_vip.Prelude.{Bool, ◌&&◌, nat_beq, if◌then◌else◌, ◌^^◌}

abbrev pub push : String → Char → String
push s c = s ^^ (c ∷ [])

abbrev pub is_arrow : Char → Char → Bool
is_arrow c d = nat_beq (code c) b'-' && nat_beq (code d) b'>'

unfoldable pub split_from : String → String → List String
split_from part [] = List.◌∷◌ part List.[]
split_from part (c ∷ []) = List.◌∷◌ (push part c) List.[]
split_from part (c ∷ d ∷ s) =
    let apart = List.◌∷◌ part (split_from "" s) in
    let on = split_from (push part c) (d ∷ s) in if is_arrow c d then apart else on

unfoldable pub split_arrow : String → List String
unfolding split_from
split_arrow s = split_from "" s
