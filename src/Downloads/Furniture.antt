-- ===== src/Downloads/Furniture.antt =====
-- Sources/Schema/AiTools.cpp: the request that is sent to the assistant, and the furniture that its
-- answer describes.
use render_studio_kit.Shared.{ℕ, String, List, [], ◌∷◌, ◌++◌, Option, some, get_elem?, Key}
use render_studio_kit.Shared.Options.{◌>>=◌, traverse}
use render_studio_kit.Shared.Texts.{Text, codes}
use render_studio_kit.Serialization.Json.{JsonLibrary, at}
use render_studio_kit.Downloads.Host.{Host}
use render_studio_kit.Downloads.Packages.{extract_text}

module _ ⦃h : Host⦄ ⦃json : JsonLibrary⦄ where
  open h use {Float}
  open json use {Json, null, as_array, as_object, of_array, of_object, as_string}

  -- What is used of OpenUSD, of JSON numbers and texts, and the text SYSTEM_INPUT
  pub record Scene : Type 1 where
    pub PrimPath : Type 0
    pub path_key : Key PrimPath
    pub append_child : PrimPath → Text → PrimPath
    pub make_valid_identifier : Text → Text
    pub as_float : Json → Option Float
    pub number : ℕ → Float
    pub negative : Float → Float
    pub of_text : Text → Json
    pub parse : Text → Option Json
    pub serialize : Json → Text
    pub system_input : Text

  -- AssistantPrimitiveInfo, with the two numbers of its position
  pub record PrimitiveInfo : Type 0 where
    pub name : Text
    pub file : Text
    pub x : Float
    pub y : Float
    pub rotation : Float

  pub record AssistantResponse : Type 0 where
    pub description : Text
    pub furniture : List PrimitiveInfo

  -- A prim on the stage: its reference, its translation and its rotation
  pub record Prim : Type 0 where
    pub reference : Option Text
    pub translation : List Float
    pub rotation : List Float

  module _ (scene : Scene) where
    open scene use {
      PrimPath, path_key, append_child, make_valid_identifier, as_float, number, negative, of_text,
      parse, serialize, system_input,
    }

    abbrev pub Stage : Type 0
    Stage = List (PrimPath × Prim)

    unfoldable pub extract_float : List (String × Json) → String → Option Float
    extract_float o key = do j ← at o key; as_float j

    -- tag_invoke of GfVec2f, the numbers at 0 and 1
    unfoldable pub float_at : List Json → ℕ → Option Float
    float_at js n = do j ← get_elem? js n; as_float j

    -- tag_invoke of AssistantPrimitiveInfo
    unfoldable pub primitive_of : Json → Option PrimitiveInfo
    primitive_of j = do
      root ← as_object j
      name ← extract_text root "name"
      file ← extract_text root "file"
      position ← at root "position"
      numbers ← as_array position
      x ← float_at numbers 0
      y ← float_at numbers 1
      rotation ← extract_float root "rotation"
      some (record { name = name; file = file; x = x; y = y; rotation = rotation })

    -- tag_invoke of AssistantResponse
    unfoldable pub assistant_of : Json → Option AssistantResponse
    assistant_of j = do
      root ← as_object j
      description ← extract_text root "description"
      listing ← at root "furniture"
      js ← as_array listing
      furniture ← traverse primitive_of js
      some (record { description = description; furniture = furniture })

    unfoldable pub message : Text → Text → Json
    message role content = of_object (("role", of_text role) ∷ ("content", of_text content) ∷ [])

    unfoldable pub prompt_request : Text → Json
    prompt_request prompt = of_object (
        ("model", of_text (codes "gpt-4"))
        ∷ (
          "messages",
          of_array (
              message (codes "system") system_input
              ∷ message (codes "user") (codes "(300, 300) " ++ prompt)
              ∷ []),
        )
        ∷ [])
