-- ===== src/Examples/Furnishing.antt =====
-- The theorem on the assistant at a concrete input.
use render_studio_kit.Shared.{
  ℕ, refl, [], ◌∷◌, some, if◌then◌else◌, nat_key, string_key, string_discrete, ℕ_discrete,
}
use render_studio_kit.Shared.Dict
use render_studio_kit.Shared.Options.{traverse}
use render_studio_kit.Shared.Texts.{codes, text_eq, replace_after}
use render_studio_kit.Networking.Url.{
  encode, parse, default_port, path_of, query_items, assign_items,
}
use render_studio_kit.Downloads.Host.{World, try_or, on_network, ◌>>=◌}
use render_studio_kit.Downloads.RestClient.{
  http_request, is_redirect, is_clean, http_impl, tcp_impl, shut_down, ssl_impl, respond,
  request_impl, client_post,
}
use render_studio_kit.Downloads.Packages.{extract_text}
use render_studio_kit.Downloads.Furniture.{
  Scene, Prim, Stage, extract_float, float_at, primitive_of, assistant_of,
}
use render_studio_kit.Downloads.Assistant.{
  first_choice, member, content_of, ask_assistant, furnish, process_prompt,
}
use render_studio_kit.Downloads.Furnishing.{Answered, process_prompt-Answered}
use render_studio_kit.Examples.Machine.{machine}
use render_studio_kit.Examples.Serializing.{Tree, trees, text, num, num_in}
use render_studio_kit.Examples.Downloading.{start, ok}

abbrev sofa_json : Tree
sofa_json = trees.of_object (
    ("name", text "Sofa")
    ∷ ("file", text "Sofa_1.glb")
    ∷ ("position", trees.of_array (num 20 ∷ num 30 ∷ []))
    ∷ ("rotation", num 90)
    ∷ [])

abbrev answer_json : Tree
answer_json =
    trees.of_object
      (("description", text "Cozy") ∷ ("furniture", trees.of_array (sofa_json ∷ [])) ∷ [])

-- The response, of which the content is "C"
abbrev response_json : Tree
response_json = trees.of_object (
    (
      "choices",
      trees.of_array
          (trees.of_object (("message", trees.of_object (("content", text "C") ∷ [])) ∷ []) ∷ []),
    )
    ∷ [])

abbrev scene : Scene
scene = record {
  PrimPath = ℕ;
  path_key = nat_key;
  append_child = λ root name. 5;
  make_valid_identifier = λ name. name;
  as_float = num_in;
  number = λ n. n;
  negative = λ n. n;
  of_text = λ s. text "";
  parse = λ s. if text_eq s (codes "C") then some answer_json else some response_json;
  serialize = λ j. codes "Q";
  system_input = [];
}

abbrev run : World
run =
    (process_prompt scene 3 (some (codes "key")) (codes "a room") 1 []
      (start (ok (codes "R") ∷ []))).1

abbrev furnished : Stage scene
furnished = (furnish scene 1 (assistant_of scene answer_json) []).1

process_prompt-Answered_example :
    Answered scene 1 3
      (codes "key")
      (codes "a room")
      (start (ok (codes "R") ∷ []))
      run
      []
      (some (codes "Cozy"))
      furnished
unfolding ◌>>=◌ on_network http_request is_redirect is_clean http_impl tcp_impl shut_down ssl_impl
    respond request_impl client_post try_or encode parse default_port path_of query_items
    assign_items text_eq replace_after extract_text extract_float float_at primitive_of assistant_of
    first_choice member content_of ask_assistant furnish process_prompt Dict.find string_discrete
    ℕ_discrete traverse
process_prompt-Answered_example =
    process_prompt-Answered scene 1 3 (codes "key") (codes "a room") [] furnished
      (some (codes "Cozy")) (start (ok (codes "R") ∷ [])) run refl
