-- ===== src/Networking/Queue.antt =====
-- std::queue<std::string>: `push` adds at the back, `pop` takes the front.
use render_studio_kit.Shared.{String, List, [], ◌∷◌, ◌++◌, Option, none, some}

abbrev pub push : String → List String → List String
push m q = q ++ m ∷ []

abbrev pub pop : List String → List String
pop [] = []
pop (m ∷ q) = q

abbrev pub front : List String → Option String
front [] = none
front (m ∷ q) = some m

unfoldable pub back : List String → Option String
back [] = none
back (m ∷ []) = some m
back (m ∷ n ∷ q) = back (n ∷ q)

-- The texts written so far and one more, if there is one
abbrev pub written : List String → Option String → List String
written wire none = wire
written wire (some m) = wire ++ m ∷ []
