-- ===== src/Networking/Naming.antt =====
-- Sources/Networking/Url.cpp and WebsocketServer.cpp: the server takes the channel and the user from
-- the target that the client asks for.
use render_studio_kit.Shared.{
  ℕ, ◌≡◌, ◌≢◌, refl, ◌∙◌, ap, List, [], ◌∷◌, ◌++◌, some, arith, ℕ_discrete,
}
use render_studio_kit.Shared.Texts.{
  Text, codes, text_eq, cut, remove, Avoids, cut-delimited, remove-append, remove-same,
  Avoids-append,
}
use render_studio_kit.Networking.Url.{UriParts, UriParser, Url, parse, path_of}
use render_studio_kit.Networking.SessionNames.{pieces, user_of, last_user, extract_names}

pieces-one : (d : ℕ) (s : Text) → Avoids d s → pieces d s ≡ s ∷ []
unfolding pieces
pieces-one d [] h = refl
pieces-one d (c ∷ s) h = ground (arith, h.0, pieces-one d s h.1)

-- A segment of a path has neither a slash nor a question mark.
abbrev pub AreSegments : List Text → Type 0
AreSegments [] = Unit {0}
AreSegments (segment ∷ segments) =
    Avoids b'/' segment × (Avoids b'?' segment × AreSegments segments)

unfoldable pub concat : List Text → Text
concat [] = []
concat (segment ∷ segments) = segment ++ concat segments

path_of-Avoids : (segments : List Text) → AreSegments segments → Avoids b'?' (path_of segments)
unfolding path_of
path_of-Avoids [] h = tt
path_of-Avoids (segment ∷ segments) h = (
  (λ e. omega arith),
  Avoids-append b'?' segment (path_of segments) h.1.0 (path_of-Avoids segments h.1.1),
)

remove-path_of :
    (segments : List Text) → AreSegments segments → remove b'/' (path_of segments) ≡ concat segments
unfolding path_of remove concat
remove-path_of [] h = refl
remove-path_of (segment ∷ segments) h = ground (
  arith,
  remove-append b'/' segment (path_of segments),
  remove-same b'/' segment h.0,
  remove-path_of segments h.1.1,
)

user_of-user : (user before : Text) → user_of (codes "user=" ++ user) before ≡ user
unfolding user_of cut text_eq ℕ_discrete
user_of-user user before = refl

user-Avoids : (user : Text) → Avoids b'&' user → Avoids b'&' (codes "user=" ++ user)
user-Avoids user h = (
  (λ e. omega arith),
  ((λ e. omega arith), ((λ e. omega arith), ((λ e. omega arith), ((λ e. omega arith), h)))),
)

extract_names-path :
    (segments : List Text) (user : Text)
    → AreSegments segments
    → Avoids b'&' user
    → extract_names (path_of segments ++ b'?' ∷ (codes "user=" ++ user)) ≡ (concat segments, user)
unfolding extract_names last_user
extract_names-path segments user h k =
    let query = codes "user=" ++ user in
    ground (
      arith,
      cut-delimited b'?' (path_of segments) query (path_of-Avoids segments h),
      pieces-one b'&' query (user-Avoids user k),
      user_of-user user [],
      remove-path_of segments h,
    )

target-query :
    (uri_parse : UriParser) (request : Text) (parts : UriParts) (url : Url)
    → uri_parse request ≡ some parts
    → parse uri_parse request ≡ some url
    → parts.query_text ≢ []
    → url.target ≡ path_of parts.path_segments ++ b'?' ∷ parts.query_text
unfolding parse
target-query uri_parse request parts url e f n = ground (arith, e, f, n)

-- When the path of a URL has the segments that uriparser found and its query is user= with a name
-- without an ampersand, the server names the user so, and its channel after the segments without the
-- slashes.
extract_names-target :
    (uri_parse : UriParser) (request : Text) (parts : UriParts) (url : Url) (user : Text)
    → uri_parse request ≡ some parts
    → AreSegments parts.path_segments
    → parts.query_text ≡ codes "user=" ++ user
    → Avoids b'&' user
    → parse uri_parse request ≡ some url
    → extract_names url.target ≡ (concat parts.path_segments, user)
extract_names-target uri_parse request parts url user e h q k f =
    ap extract_names (
      target-query uri_parse request parts url e f (λ empty. cc (empty, q))
      ∙ ap (λ query. path_of parts.path_segments ++ b'?' ∷ query) q)
    ∙ extract_names-path parts.path_segments user h k
