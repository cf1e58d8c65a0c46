-- ===== src/Downloads/Assistant.antt =====
-- Sources/Schema/AiTools.cpp: a prompt is sent to an assistant, and the furniture of its answer is put on
-- the stage.
use render_studio_kit.Shared.{ℕ, String, List, [], ◌∷◌, ◌++◌, Option, none, some, Key, get_or}
use render_studio_kit.Shared.Dict
use render_studio_kit.Shared.Texts.{Text, codes}
use render_studio_kit.Serialization.Json.{JsonLibrary, at}
use render_studio_kit.Downloads.Host.{Host, Step, undefined, return, try_or, ◌>>=◌}
use render_studio_kit.Downloads.FileUtils.{listed}
use render_studio_kit.Downloads.RestClient.{Parameters, client_post}
use render_studio_kit.Downloads.Furniture.{
  Scene, PrimitiveInfo, AssistantResponse, Prim, Stage, assistant_of, prompt_request,
}

module _ ⦃h : Host⦄ ⦃json : JsonLibrary⦄ (scene : Scene) where
  open h use {bytes}
  open json use {Json, as_array, as_object, as_string}
  open scene use {PrimPath, append_child, make_valid_identifier, number, negative, parse, serialize}

  instance abbrev prims : Key PrimPath
  prims = scene.path_key

  -- The first element of an array, which is undefined behaviour if there is none
  unfoldable pub first_choice : List Json → Step Json
  first_choice [] w = (undefined, w)
  first_choice (j ∷ js) w = return j w

  -- A member of an object; a missing one is null, which is no object, array or string.
  unfoldable pub member : Json → String → Step Json
  member j key = do o ← listed (as_object j); listed (at o key)

  -- The text of the message of the first choice
  unfoldable pub content_of : Json → Step Text
  content_of j = do
    choices ← member j "choices"
    js ← listed (as_array choices)
    choice ← first_choice js
    answer ← member choice "message"
    content ← member answer "content"
    text ← listed (as_string content)
    return (bytes text)

  -- The try block of ProcessPrompt
  unfoldable pub ask_assistant : ℕ → Text → Text → Step AssistantResponse
  ask_assistant fuel api_key prompt = do
    let parameters : Parameters = record {
      content_type = some (codes "application/json");
      authorization = some (codes "Bearer " ++ api_key);
    }
    response ←
        client_post fuel parameters (codes "https://api.openai.com/v1/chat/completions")
          (serialize (prompt_request scene prompt))
    j ← listed (parse response)
    text ← content_of j
    content ← listed (parse text)
    listed (assistant_of scene content)

  -- SdfPath::AppendChild of the identifier that is made of the name
  unfoldable pub path_for : PrimPath → PrimitiveInfo → PrimPath
  path_for root entry = append_child root (make_valid_identifier entry.name)

  unfoldable pub prim_for : PrimitiveInfo → Prim
  prim_for entry = record {
    reference = some (codes "studio://Assets/" ++ entry.file);
    translation = entry.x ∷ number 0 ∷ entry.y ∷ [];
    rotation = number 0 ∷ entry.rotation ∷ number 0 ∷ [];
  }

  -- The loop over the furniture
  unfoldable pub place : PrimPath → List PrimitiveInfo → Stage scene → Stage scene
  place root [] stage = stage
  place root (entry ∷ entries) stage =
      place root entries (Dict.put (path_for root entry) (prim_for entry) stage)

  abbrev pub no_prim : Prim
  no_prim = record { reference = none; translation = []; rotation = [] }

  -- The rotation and the translation of the root
  unfoldable pub turn_root : PrimPath → Stage scene → Stage scene
  turn_root root stage =
      Dict.put root
        (record (get_or no_prim (Dict.find root stage)) {
          rotation = number 90 ∷ number 0 ∷ number 0 ∷ [];
          translation = negative (number 150) ∷ number 150 ∷ number 10 ∷ [];
        })
        stage

  unfoldable pub furnish :
      PrimPath → Option AssistantResponse → Stage scene → Option Text × Stage scene
  furnish root none stage = (none, stage)
  furnish root (some generated) stage =
      (some generated.description, turn_root root (place root generated.furniture stage))

  -- Tools::ProcessPrompt, with the key of the environment
  unfoldable pub process_prompt :
      ℕ → Option Text → Text → PrimPath → Stage scene → Step (Option Text × Stage scene)
  process_prompt fuel none prompt root stage = return (none, stage)
  process_prompt fuel (some api_key) prompt root stage = do
    answered ←
        try_or none (do generated ← ask_assistant fuel api_key prompt; return (some generated))
    return (furnish root answered stage)
