-- ===== src/Examples/Resolving.antt =====
-- The theorems on URLs and on the resolver's paths at concrete inputs.
use render_studio_kit.Shared.{
  ◌≡◌, refl, ap, true, false, List, [], ◌∷◌, ◌++◌, Option, none, some, arith, ℕ_discrete,
}
use render_studio_kit.Shared.Texts.{
  Text, codes, strip, contains, text_eq, replace_after, split_at, getline,
}
use render_studio_kit.Networking.Url.{
  decode, query_items, UriParts, Url, parse, default_port, path_of, assign, assign_items,
}
use render_studio_kit.FileFormat.Original.{
  Formats, get_original_format, before_query, assumed_extension,
}
use render_studio_kit.Resolver.Paths.{
  FileSystem, root_path, drop, forward_slashes, unresolve, resolve_impl, is_render_studio_path,
}
use render_studio_kit.Resolver.Session.{LiveSessionInfo, start_live_mode, replace_local}
use render_studio_kit.Resolver.Unresolving.{NoBackslash, SlashesTurned, resolve_impl-unresolve}

-- A file system of which the workspace is /w, and paths below it begin with /w/
abbrev files : FileSystem
files = record {
  default_workspace = codes "/w";
  cache = codes "/c";
  join = λ a b. a ++ codes "/" ++ b;
  lexically_relative = λ a b. drop 3 a;
  extension = λ a. [];
  first_part = λ a. a;
  tokenize = λ a. a ∷ [];
  norm_path = λ a. a;
  cat_paths = λ a b. a ++ b;
  before_slash = λ a. a;
  is_relative_path = λ a. false;
  uri_parse = λ a. none;
}

-- Here, as on Windows, two paths are the same place if they differ in the direction of slashes only.
abbrev SamePlace : Text → Text → Type 0
SamePlace a b = forward_slashes a ≡ forward_slashes b

SlashesTurned-SamePlace : (s r : Text) → SlashesTurned s r → SamePlace r s
unfolding forward_slashes
SlashesTurned-SamePlace [] [] t = refl
SlashesTurned-SamePlace [] (d ∷ r) t = absurd t
SlashesTurned-SamePlace (c ∷ s) [] t = absurd t
SlashesTurned-SamePlace (c ∷ s) (d ∷ r) t = ground (arith, SlashesTurned-SamePlace s r t.1)

-- The relative path of a file in a folder, and the place of it, with backslashes
abbrev in_folder : Text
in_folder = codes "a\\b"

abbrev folder_place : Text
folder_place = codes "/w/a\\b"

resolve_impl-unresolve_example :
    (is_render_studio_path (unresolve files [] folder_place) ≡ true)
    × NoBackslash (unresolve files [] folder_place)
    × ((r found : Text) × (unresolve files [] folder_place ≡ codes "studio://" ++ r)
        × SlashesTurned in_folder r
        × (resolve_impl files [] (unresolve files [] folder_place) ≡ some found)
        × SamePlace found folder_place)
unfolding root_path drop forward_slashes ℕ_discrete
resolve_impl-unresolve_example =
    resolve_impl-unresolve files [] SamePlace folder_place
      (λ r t. ap (λ s. codes "/w/" ++ s) (SlashesTurned-SamePlace in_folder r t))

-- A session on this machine connects to the port of the local server.
abbrev local_session : LiveSessionInfo
local_session = record {
  live_url = codes "ws://localhost/workspace/live";
  storage_url = [];
  channel_id = codes "room";
  user_id = codes "ann";
}

local_url : (start_live_mode local_session).1 ≡ codes "ws://localhost:52702/room/?user=ann"
unfolding start_live_mode replace_local contains strip replace_after ℕ_discrete
local_url = refl

-- The text of a URL that uriparser would split so
abbrev local_parts : UriParts
local_parts = record {
  scheme = codes "ws";
  host_text = codes "localhost";
  port_text = [];
  path_segments = codes "room" ∷ [] ∷ [];
  query_text = codes "user=ann%20b&t=1";
}

abbrev shown : Option Url → Text × Text × List (Text × Text)
shown none = ([], [], [])
shown (some u) = (u.port, u.path, u.query)

local_query :
    shown (parse (λ a. some local_parts) [])
    ≡ (codes "80", codes "/room/", (codes "user", codes "ann b") ∷ (codes "t", codes "1") ∷ [])
unfolding parse default_port path_of assign assign_items query_items getline split_at decode text_eq
    strip replace_after ℕ_discrete
local_query = refl

abbrev ann_parts : UriParts
ann_parts = record local_parts { query_text = codes "user=ann" }

-- A material without an extension, behind a query
abbrev formats : Formats
formats = record {
  Format = Text;
  usdc = codes "usdc";
  usda = codes "usda";
  can_read = λ format path. false;
  find_by_extension = λ extension. some extension;
  extension = λ path. [];
}

material_format : get_original_format formats (codes "gpuopen:/ab?title=b") ≡ some (codes ".mtlx")
unfolding get_original_format before_query assumed_extension contains strip ℕ_discrete
material_format = refl
