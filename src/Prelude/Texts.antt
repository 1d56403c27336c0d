-- ===== src/Prelude/Texts.antt =====
-- Concatenation of texts, under a name of its own beside that of lists.
use Prim.Native.String.{String, ◌++◌}

infixr 66 ◌^^◌
abbrev pub ◌^^◌ : String → String → String
s ^^ t = s ++ t
