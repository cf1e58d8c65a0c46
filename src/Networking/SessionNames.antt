-- ===== src/Networking/SessionNames.antt =====
-- Sources/Networking/WebsocketServer.cpp: the channel and the user that a session takes from the target
-- of its request, Util::ExtractChannelAndUserNames.
use render_studio_kit.Shared.{ℕ, List, [], ◌∷◌, none, some, ite, ℕ_discrete, if◌then◌else◌}
use render_studio_kit.Shared.Texts.{Text, codes, text_eq, cut, remove}

-- The pieces between the delimiters: query.substr(start, end - start) of every round
unfoldable pub pieces : ℕ → Text → List Text
pieces d [] = [] ∷ []
pieces d (c ∷ s) =
    let rest = pieces d s in
    ite (ℕ_discrete c d) ([] ∷ rest)
      (elim rest [ [] ↦ (c ∷ []) ∷ [] | piece ∷ more ↦ (c ∷ piece) ∷ more ])

-- if (key == "user") userName = value
unfoldable pub user_of : Text → Text → Text
user_of key_value user = elim (cut b'=' key_value) [
  | none ↦ user
  | some (key, value) ↦ if text_eq key (codes "user") then value else user
]

unfoldable pub last_user : List Text → Text → Text
last_user [] user = user
last_user (key_value ∷ rest) user = last_user rest (user_of key_value user)

-- Util::ExtractChannelAndUserNames
unfoldable pub extract_names : Text → Text × Text
extract_names target = elim (cut b'?' target) [
  | none ↦ (remove b'/' target, [])
  | some (path, query) ↦ (remove b'/' path, last_user (pieces b'&' query) [])
]
