-- ===== src/Email/Templates/Pieces.antt =====
-- Template strings.
use Prim.Native.String.{String}
use vnst_be.Base.{Option, none, some, List, [], ◌∷◌, ◌++◌, Text, txt}

pub data Piece : Type 0 where
  lit : String → Piece
  hole : Text → Piece

unfoldable pub render : List Piece → Text
render [] = []
render (lit s ∷ ps) = txt s ++ render ps
render (hole t ∷ ps) = t ++ render ps

-- How a template string prints a value that may be `undefined`.
abbrev pub printed : Option Text → Text
printed none = txt "undefined"
printed (some s) = s
