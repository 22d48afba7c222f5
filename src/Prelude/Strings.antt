-- ===== src/Prelude/Strings.antt =====
-- Concatenation of strings.
use Prim.Native.String.{String, ◌++◌}

abbrev pub concat : String → String → String
concat s t = s ++ t
