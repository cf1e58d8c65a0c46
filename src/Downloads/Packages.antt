-- ===== src/Downloads/Packages.antt =====
-- The descriptions of materials and lights: the value_to functions of Sources/Networking/
-- MaterialLibraryApi.cpp and LocalStorageApi.cpp. `none` is a thrown exception.
use render_studio_kit.Shared.{
  ℕ, ◌^◌, String, List, [], ◌∷◌, Option, none, some, if◌then◌else◌, ite, ltb, ℕ_discrete,
}
use render_studio_kit.Shared.Options.{◌>>=◌, traverse}
use render_studio_kit.Shared.Texts.{Text, codes, text_eq}
use render_studio_kit.Serialization.Json.{JsonLibrary, at}
use render_studio_kit.Downloads.Host.{Host}

-- boost::split with one delimiter: an empty text has one empty token
unfoldable pub prepend : ℕ → List Text → List Text
prepend c [] = (c ∷ []) ∷ []
prepend c (token ∷ tokens) = (c ∷ token) ∷ tokens

unfoldable pub split : ℕ → Text → List Text
split d [] = [] ∷ []
split d (c ∷ s) = let rest = split d s in ite (ℕ_discrete c d) ([] ∷ rest) (prepend c rest)

-- LocalStorageAPI::PackageResponse::Item
pub record Light : Type 0 where
  pub created_at : Text
  pub updated_at : Text
  pub id : Text
  pub name : Text
  pub kind : Text
  pub file : Text
  pub thumbnail : Text
  pub texture : Option Text

pub record LightResponse : Type 0 where
  pub count : ℕ
  pub results : List Light

module _ ⦃h : Host⦄ where
  open h use {bytes, Float, stof, times_1024, divided_by_1024}

  -- PackageResponse::Item
  pub record Item : Type 0 where
    pub id : Text
    pub author : Text
    pub file_url : Text
    pub created_date : Text
    pub updated_date : Text
    pub file : Text
    pub label : Text
    pub size_mb : Float

  pub record PackageResponse : Type 0 where
    pub count : ℕ
    pub results : List Item

  -- "14.1 MB" to 14.1; another unit or another number of tokens throws.
  unfoldable pub scaled : Text → Float → Option Float
  scaled unit size =
      if text_eq unit (codes "MB")
      then some size
      else if text_eq unit (codes "KB")
      then some (divided_by_1024 size)
      else if text_eq unit (codes "GB")
      then some (times_1024 size)
      else none

  unfoldable pub size_of_tokens : List Text → Option Float
  size_of_tokens (number ∷ unit ∷ []) = stof number >>= scaled unit
  size_of_tokens _ = none

  module _ ⦃json : JsonLibrary⦄ where
    open json use {Json, as_string, as_nat, as_array, as_object, is_null}

    -- Extract into a std::string, and into a std::uint32_t
    unfoldable pub extract_text : List (String × Json) → String → Option Text
    extract_text o key = do j ← at o key; s ← as_string j; some (bytes s)

    unfoldable pub extract_count : List (String × Json) → String → Option ℕ
    extract_count o key = do j ← at o key; n ← as_nat j; if ltb n (2 ^ 32) then some n else none

    -- tag_invoke of Item
    unfoldable pub item_of : Json → Option Item
    item_of j = do
      root ← as_object j
      id ← extract_text root "id"
      author ← extract_text root "author"
      file_url ← extract_text root "file_url"
      created_date ← extract_text root "created_date"
      updated_date ← extract_text root "updated_date"
      file ← extract_text root "file"
      label ← extract_text root "label"
      size_in ← extract_text root "size"
      size ← size_of_tokens (split b' ' size_in)
      some (record {
        id = id;
        author = author;
        file_url = file_url;
        created_date = created_date;
        updated_date = updated_date;
        file = file;
        label = label;
        size_mb = size;
      })

    -- tag_invoke of PackageResponse
    unfoldable pub response_of : Json → Option PackageResponse
    response_of j = do
      root ← as_object j
      count ← extract_count root "count"
      listing ← at root "results"
      js ← as_array listing
      results ← traverse item_of js
      some (record { count = count; results = results })

    -- Extract of LocalStorageApi.cpp into a std::optional: a missing key and a null leave it empty.
    unfoldable pub extract_optional_text : List (String × Json) → String → Option (Option Text)
    extract_optional_text o key = elim (at o key) [
      | none ↦ some none
      | some j ↦ if is_null j then some none else (do s ← as_string j; some (some (bytes s)))
    ]

    unfoldable pub light_of : Json → Option Light
    light_of j = do
      root ← as_object j
      created_at ← extract_text root "created_at"
      updated_at ← extract_text root "updated_at"
      id ← extract_text root "id"
      name ← extract_text root "name"
      kind ← extract_text root "type"
      file ← extract_text root "file"
      thumbnail ← extract_text root "thumbnail"
      texture ← extract_optional_text root "texture"
      some (record {
        created_at = created_at;
        updated_at = updated_at;
        id = id;
        name = name;
        kind = kind;
        file = file;
        thumbnail = thumbnail;
        texture = texture;
      })

    unfoldable pub light_response_of : Json → Option LightResponse
    light_response_of j = do
      root ← as_object j
      count ← extract_count root "count"
      listing ← at root "results"
      js ← as_array listing
      results ← traverse light_of js
      some (record { count = count; results = results })
