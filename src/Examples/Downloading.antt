-- ===== src/Examples/Downloading.antt =====
-- The theorems on downloads at concrete inputs.
use render_studio_kit.Shared.{
  ◌+◌, true, false, ◌≡◌, refl, List, [], ◌∷◌, Option, none, some, if◌then◌else◌, ℕ_discrete, arith,
}
use render_studio_kit.Shared.Texts.{Text, codes, text_eq, replace_after}
use render_studio_kit.Serialization.Json.{JsonLibrary}
use render_studio_kit.Networking.Url.{
  encode, parse, default_port, path_of, query_items, assign_items,
}
use render_studio_kit.Downloads.Host.{
  get, Response, World, Step, throw, done, thrown, out_of_fuel, try_or, on_disk, on_network, ◌>>=◌,
}
use render_studio_kit.Downloads.Uuid.{digits, uuid_of, generate_uuid}
use render_studio_kit.Downloads.FileUtils.{
  ensure_directory, get_render_studio_path, get_default_workspace_path, free_path, temp_directory,
  leave, scope, with_temp, unzip, extract, move_entries, move,
}
use render_studio_kit.Downloads.RestClient.{
  no_parameters, http_request, is_redirect, is_clean, http_impl, tcp_impl, shut_down, ssl_impl,
  respond, request_impl, client_get, save, download_into, client_download,
}
use render_studio_kit.Downloads.Packages.{Item}
use render_studio_kit.Downloads.MaterialLibrary.{
  first_with, root_with, fetch_material, download_material,
}
use render_studio_kit.Downloads.Once.{download_material-once}
use render_studio_kit.Downloads.Redirects.{
  Replies, answer, failure, redirect, rounds, request_impl-endless,
}
use render_studio_kit.Downloads.Answers.{client_get-Replies, text_or_error}
use render_studio_kit.Downloads.Temporary.{
  drawn, candidate, render_studio, FirstFree, free_path-enough, with_temp-Gone,
}
use render_studio_kit.Downloads.Asset.{gpuopen_asset}
use render_studio_kit.Downloads.Failing.{
  material_request, IsUndefined, unreachable_material-IsUndefined,
}
use render_studio_kit.Downloads.Workspace.{marker, get_default_workspace_path-settled}
use render_studio_kit.Examples.Disk.{FilePath, present}
use render_studio_kit.Examples.Machine.{machine, machine-Documented}

-- A disk with the directory of Render Studio
abbrev studio_node : FilePath → Option (Option Text)
studio_node p = if text_eq (codes "home") (last p) then some none else none
  where
    last : FilePath → Text
    last [] = []
    last (a ∷ []) = a
    last (a ∷ b ∷ p) = if text_eq a (codes "AMD RenderStudio") then last (b ∷ p) else []

abbrev pub start : List (Option Response) → World
start responses = record {
  disk = record { node = studio_node; known = [] };
  network = responses;
  entropy = 0;
}

abbrev pub ok : Text → Option Response
ok s = some (record { status = 200; location = []; body = s })

abbrev brick : Item
brick = record {
  id = codes "1";
  author = [];
  file_url = codes "u";
  created_date = [];
  updated_date = [];
  file = [];
  label = [];
  size_mb = 3;
}

abbrev brick_path : FilePath
brick_path = codes "brick" ∷ codes "home" ∷ []

test_download :
    (download_material 3 brick brick_path (start (ok (codes "PK") ∷ []))).0
    ≡ done (codes "a.mtlx" ∷ brick_path)
unfolding download_material ◌>>=◌ fetch_material with_temp temp_directory free_path
    get_render_studio_path ensure_directory generate_uuid digits uuid_of on_disk on_network leave
    scope unzip extract move_entries move http_request is_redirect is_clean http_impl tcp_impl
    shut_down ssl_impl respond request_impl client_get save download_into client_download try_or
    encode parse default_port path_of query_items assign_items first_with root_with text_eq
    replace_after ℕ_discrete
test_download = refl

-- The machine after a download without a network, and then with one
abbrev later : World
later = record (start (ok (codes "PK") ∷ [])) {
  disk = (download_material 3 brick brick_path (start [])).1.disk;
}

download_material-once_example :
    (download_material 5 brick brick_path later ≡ root_with (codes ".mtlx") brick_path later)
    × ((download_material 5 brick brick_path later).1 ≡ later)
unfolding text_eq ℕ_discrete
download_material-once_example =
    download_material-once machine-Documented 3 5 brick brick brick_path (start []) later refl refl
      refl

abbrev to_u : Response
to_u = record { status = 302; location = codes "u"; body = [] }

abbrev hello : Response
hello = record { status = 200; location = []; body = codes "hi" }

redirected_reply :
    Replies get [] no_parameters
      (encode (codes "a b"))
      (start (some to_u ∷ some hello ∷ []))
      (done (codes "hi"))
      (start (some hello ∷ []))
unfolding respond ◌>>=◌ parse default_port path_of query_items assign_items text_eq ssl_impl
    tcp_impl http_impl on_network shut_down is_clean is_redirect ℕ_discrete http_request
redirected_reply = redirect {r = to_u} refl refl (answer {r = hello} refl refl)

client_get-Replies_example :
    client_get
      (rounds get [] no_parameters redirected_reply + 1)
      no_parameters
      (codes "a b")
      (start (some to_u ∷ some hello ∷ []))
    ≡ (done (text_or_error (done (codes "hi"))), start (some hello ∷ []))
client_get-Replies_example =
    client_get-Replies no_parameters (codes "a b") (start (some to_u ∷ some hello ∷ []))
      (start (some hello ∷ [])) (done (codes "hi")) redirected_reply
      (rounds get [] no_parameters redirected_reply + 1) (omega arith)

-- A server that redirects every request to itself
abbrev circle : World
circle = start (some to_u ∷ [])

circle_round : (request : Text) → respond request get [] no_parameters circle ≡ (done to_u, circle)
unfolding respond ◌>>=◌ parse default_port path_of query_items assign_items text_eq ssl_impl
    tcp_impl http_impl on_network shut_down is_clean ℕ_discrete http_request
circle_round request = refl

circle_redirects : is_redirect 302 ≡ true
unfolding is_redirect ℕ_discrete
circle_redirects = refl

request_impl-endless_example :
    (request_impl 1000 (codes "u") get [] no_parameters circle).0 ≡ out_of_fuel
request_impl-endless_example =
    request_impl-endless get [] no_parameters (λ request w. w ≡ circle)
      (λ request w s. (to_u, circle, rw s (circle_round request), circle_redirects, refl)) 1000
      (codes "u") circle refl

free_path-enough_example : FirstFree 3 (start [])
unfolding text_eq ℕ_discrete digits uuid_of drawn
free_path-enough_example = free_path-enough 3 1 (start []) refl refl (omega arith)

abbrev failing : FilePath → Step Text
failing path = throw

with_temp-Gone_example : present (candidate 0 0) ((with_temp 3 failing (start [])).1.disk) ≡ false
unfolding with_temp temp_directory free_path get_render_studio_path ensure_directory generate_uuid
    digits uuid_of on_disk leave scope text_eq ℕ_discrete drawn ◌>>=◌
with_temp-Gone_example =
    with_temp-Gone machine-Documented 3 failing (candidate 0 0) (start [])
      ((temp_directory 3 (start [])).1) refl tt

instance abbrev no_json : JsonLibrary
no_json = record {
  Json = Unit {0};
  null = tt;
  is_null = λ j. true;
  of_string = λ s. tt;
  as_string = λ j. none;
  of_array = λ s. tt;
  as_array = λ j. none;
  of_object = λ s. tt;
  as_object = λ j. none;
  of_bool = λ s. tt;
  as_bool = λ j. none;
  of_nat = λ s. tt;
  as_nat = λ j. none;
}

abbrev no_parse : Text → Option (Unit {0})
no_parse s = none

no_reply :
    Replies get [] no_parameters
      (encode (material_request (codes "7")))
      (start [])
      thrown
      (start [])
unfolding respond ◌>>=◌ parse default_port path_of query_items assign_items text_eq ssl_impl
    tcp_impl http_impl on_network ℕ_discrete http_request
no_reply = failure refl

unreachable_material-IsUndefined_example :
    IsUndefined
      (gpuopen_asset no_parse (rounds get [] no_parameters no_reply) (codes "7") brick_path)
      (start [])
unreachable_material-IsUndefined_example =
    unreachable_material-IsUndefined no_parse (rounds get [] no_parameters no_reply) (codes "7")
      brick_path (start []) (start []) refl refl no_reply (omega arith)

abbrev marked_world : World
marked_world = (get_default_workspace_path (start [])).1

get_default_workspace_path-settled_example :
    (codes "Workspace" ∷ render_studio ≡ codes "Workspace" ∷ render_studio)
    × (present marker marked_world.disk ≡ true)
    × (get_default_workspace_path marked_world
        ≡ (done (codes "Workspace" ∷ render_studio), marked_world))
unfolding get_default_workspace_path get_render_studio_path ensure_directory on_disk text_eq
    ℕ_discrete ◌>>=◌
get_default_workspace_path-settled_example =
    get_default_workspace_path-settled machine-Documented (start []) marked_world
      (codes "Workspace" ∷ render_studio) refl
