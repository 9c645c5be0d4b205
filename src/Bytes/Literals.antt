-- ===== src/Bytes/Literals.antt =====
-- Text literals as bytes, and how Rust decodes bytes that may not be UTF-8.
use Prim.Native.Char.{code}
use Prim.Native.String.{String}
use renga.Prelude.{ℕ, List, [], ◌∷◌}

-- The bytes of a text that is ASCII.
abbrev pub codes : String → List ℕ
codes String.[] = []
codes (String.◌∷◌ c s) = code c ∷ codes s
