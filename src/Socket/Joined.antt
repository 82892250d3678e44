-- ===== src/Socket/Joined.antt =====
-- A JSON text that comes in pieces.
use next_dbm.Base.{◌≡◌, false, List, [], ◌∷◌, ◌++◌, Text, Option, none, some}
use next_dbm.Socket.Defs.{Header, is_error, is_parsed}

-- No text is JSON before the last piece has come.
abbrev pub Incomplete : (Text → Option Header) → Text → List Text → Type 0
Incomplete parse before [] = Unit
Incomplete parse before (d ∷ []) = Unit
Incomplete parse before (d ∷ e ∷ rest) =
    (is_parsed (parse (before ++ d)) ≡ false) × Incomplete parse (before ++ d) (e ∷ rest)

-- A piece is not JSON, or no error.
abbrev pub NoError : Option Header → Type 0
NoError none = Unit
NoError (some h) = is_error h ≡ false

abbrev pub NoErrors : (Text → Option Header) → List Text → Type 0
NoErrors parse [] = Unit
NoErrors parse (d ∷ pieces) = NoError (parse d) × NoErrors parse pieces

abbrev pub header_of : Option Header → List Header
header_of none = []
header_of (some h) = h ∷ []

-- The pieces that are JSON by themselves.
abbrev pub headers : (Text → Option Header) → List Text → List Header
headers parse [] = []
headers parse (d ∷ pieces) = header_of (parse d) ++ headers parse pieces
