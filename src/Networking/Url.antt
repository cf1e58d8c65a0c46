-- ===== src/Networking/Url.antt =====
-- Sources/Networking/Url.cpp: the parts of a URL, its query, and the encoding of spaces. Texts are
-- lists of bytes; splitting a URL into its parts is uriparser's, a parameter.
use render_studio_kit.Shared.{
  ℕ, zero, suc, Bool, ◌||◌, List, [], ◌∷◌, ◌++◌, Option, none, some, is_nil, length, if◌then◌else◌,
}
use render_studio_kit.Shared.Options.{◌>>=◌}
use render_studio_kit.Shared.Texts.{Text, codes, text_eq, replace_all, getline}

-- uriParseSingleUriA: scheme, hostText, portText, the segments of the path, and the query
pub record UriParts : Type 0 where
  pub scheme : Text
  pub host_text : Text
  pub port_text : Text
  pub path_segments : List Text
  pub query_text : Text

-- Which fails on a text that is no URI
abbrev pub UriParser : Type 0
UriParser = Text → Option UriParts

pub record Url : Type 0 where
  pub protocol : Text
  pub host : Text
  pub port : Text
  pub path : Text
  pub query : List (Text × Text)
  pub target : Text
  pub ssl : Bool

unfoldable pub encode : Text → Text
encode url = replace_all (codes " ") (codes "%20") url

unfoldable pub decode : Text → Text
decode url = replace_all (codes "%20") (codes " ") url

-- result.mQuery[key] = value
unfoldable pub assign : Text → Text → List (Text × Text) → List (Text × Text)
assign key value [] = (key, value) ∷ []
assign key value ((k, v) ∷ m) =
    let rest = assign key value m in if text_eq k key then (k, value) ∷ m else (k, v) ∷ rest

-- The keys and values in the order in which the loop reads them, before they are decoded. Every round
-- takes something out of the text, so its length is enough fuel.
unfoldable pub query_items : ℕ → Text → List (Text × Text)
query_items zero s = []
query_items (suc fuel) s = elim (getline b'=' s) [
  | none ↦ []
  | some (key, after_key) ↦ elim (getline b'&' after_key) [
    | none ↦ []
    | some (value, rest) ↦ (key, value) ∷ query_items fuel rest
  ]
]

unfoldable pub assign_items : List (Text × Text) → List (Text × Text) → List (Text × Text)
assign_items [] m = m
assign_items ((key, value) ∷ items) m = assign_items items (assign key (decode value) m)

unfoldable pub path_of : List Text → Text
path_of [] = []
path_of (segment ∷ segments) = codes "/" ++ (segment ++ path_of segments)

-- The port by the protocol; Parse throws on another one.
unfoldable pub default_port : Text → Option Text
default_port protocol =
    if text_eq protocol (codes "https")
      || text_eq protocol (codes "wss")
      || text_eq protocol (codes "gpuopen")
    then some (codes "443")
    else if text_eq protocol (codes "http") || text_eq protocol (codes "ws")
    then some (codes "80")
    else none

-- Url::Parse
unfoldable pub parse : UriParser → Text → Option Url
parse uri_parse request = do
  uri ← uri_parse request
  port ← if is_nil uri.port_text then default_port uri.scheme else some uri.port_text
  let path = path_of uri.path_segments
  some (record {
    protocol = uri.scheme;
    host = uri.host_text;
    port = port;
    path = path;
    query = assign_items (query_items (length uri.query_text) uri.query_text) [];
    target = if is_nil uri.query_text then path else path ++ (codes "?" ++ uri.query_text);
    ssl = text_eq port (codes "443");
  })
