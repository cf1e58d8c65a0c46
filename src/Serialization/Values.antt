-- ===== src/Serialization/Values.antt =====
-- Sources/Serialization/Serialization.cpp: the JSON form of a VtValue, and of the VtDictionary that
-- holds such values.
use render_studio_kit.Shared.{
  ℕ, zero, suc, String, Bool, List, [], ◌∷◌, Option, none, some, ite, get_or, ℕ_discrete,
  string_discrete, string_key,
}
use Prim.Native.Char.{code}
use Prim.Native.String as Text
use render_studio_kit.Usd.{Usd}
use render_studio_kit.Serialization.Json.{JsonLibrary, Form, at, extract, array_form}
use render_studio_kit.Serialization.Conversion.{
  Conversion, converted, threw, out_of_fuel, returned, value_of, ◌>>=◌,
}
use render_studio_kit.Serialization.Matrices.{matrix_to_json, json_to_matrix}
use render_studio_kit.Serialization.Forms.{
  Plain, AssetPath, ListOp, Reference, bool_form, string_form, asset_path_form, vec2_form,
  vec3_form, list_op_form, path_form, token_form, specifier_form, variability_form, reference_form,
}

-- The types that the two functions know, in the order of value_from
pub data Kind : Type 0 where
  vec3d vec3f boolean specifier token text variability ints floats token_array vec2fs vec3fs : Kind
  double float token_vector matrix4d path_list_op reference_list_op token_list_op : Kind
  path_vector int dictionary asset_path value_block : Kind

-- The name that value_to compares with
unfoldable pub tested_name : Kind → String
tested_name vec3d = "GfVec3d"
tested_name vec3f = "GfVec3f"
tested_name boolean = "bool"
tested_name specifier = "SdfSpecifier"
tested_name token = "TfToken"
tested_name text = "string"
tested_name variability = "SdfVariability"
tested_name ints = "VtArray<int>"
tested_name floats = "VtArray<float>"
tested_name token_array = "VtArray<TfToken>"
tested_name vec2fs = "VtArray<GfVec2f>"
tested_name vec3fs = "VtArray<GfVec3f>"
tested_name double = "double"
tested_name float = "float"
tested_name token_vector = "vector<TfToken,allocator<TfToken>>"
tested_name matrix4d = "GfMatrix4d"
tested_name path_list_op = "SdfListOp<SdfPath>"
tested_name reference_list_op = "SdfListOp<SdfReference>"
tested_name token_list_op = "SdfListOp<TfToken>"
tested_name path_vector = "vector<SdfPath,allocator<SdfPath>>"
tested_name int = "int"
tested_name dictionary = "VtDictionary"
tested_name asset_path = "SdfAssetPath"
tested_name value_block = "SdfValueBlock"

-- The order of the comparisons in value_to
abbrev pub tested_kinds : List Kind
tested_kinds =
    vec3d ∷ vec3f ∷ boolean ∷ specifier ∷ token ∷ text ∷ variability ∷ ints ∷ token_array ∷ vec2fs
    ∷ vec3fs ∷ double ∷ token_vector ∷ path_vector ∷ matrix4d ∷ float ∷ int ∷ floats ∷ dictionary
    ∷ asset_path ∷ path_list_op ∷ reference_list_op ∷ token_list_op ∷ value_block ∷ []

-- The chain of comparisons
unfoldable pub find_kind : String → List Kind → Option Kind
find_kind type [] = none
find_kind type (kind ∷ kinds) =
    ite (string_discrete (tested_name kind) type) (some kind) (find_kind type kinds)

-- typeName.erase(std::remove(typeName.begin(), typeName.end(), ' '), typeName.end())
unfoldable pub remove_spaces : String → String
remove_spaces Text.[] = Text.[]
remove_spaces (Text.◌∷◌ c s) =
    ite (ℕ_discrete (code c) 32) (remove_spaces s) (Text.◌∷◌ c (remove_spaces s))

module _ ⦃usd : Usd⦄ ⦃json : JsonLibrary⦄ (plain : Plain) where
  open usd use {SdfPath, Token}
  open json use {Json, null, of_string, as_string, of_bool, as_bool, of_object, as_object}
  open plain use {Real, Float, Int, Specifier, Variability, real_form, float_form, int_form}

  -- What a VtValue holds: one of the types above, or another one, by its name. VtDictionary is a
  -- std::map.
  mutual
    pub data VtValue : Type 0 where
      vec3d_value : (Real × Real × Real) → VtValue
      vec3f_value : (Float × Float × Float) → VtValue
      boolean_value : Bool → VtValue
      specifier_value : Specifier → VtValue
      token_value : Token → VtValue
      text_value : String → VtValue
      variability_value : Variability → VtValue
      ints_value : (List Int) → VtValue
      floats_value : (List Float) → VtValue
      token_array_value : (List Token) → VtValue
      vec2fs_value : (List (Float × Float)) → VtValue
      vec3fs_value : (List (Float × Float × Float)) → VtValue
      double_value : Real → VtValue
      float_value : Float → VtValue
      token_vector_value : (List Token) → VtValue
      matrix4d_value : (List Real) → VtValue
      path_list_op_value : (ListOp SdfPath) → VtValue
      reference_list_op_value : (ListOp (Reference plain)) → VtValue
      token_list_op_value : (ListOp Token) → VtValue
      path_vector_value : (List SdfPath) → VtValue
      int_value : Int → VtValue
      dictionary_value : Entries → VtValue
      asset_path_value : AssetPath → VtValue
      value_block_value : VtValue
      other_value : String → VtValue

    pub data Entries : Type 0 where
      no_entries : Entries
      entry : String → VtValue → Entries → Entries

  -- GetTypeName of each type, before the spaces are removed, and the memory of GfMatrix4d {}
  module _ (get_type_name : Kind → String) (blank_matrix : List Real) where
    -- result["type"] and result["data"]
    unfoldable pub typed : Kind → Conversion Json → Conversion Json
    typed kind content = do
      j ← content
      converted
          (of_object (("type", of_string (remove_spaces (get_type_name kind))) ∷ ("data", j) ∷ []))

    -- value_from of a VtValue and of a VtDictionary
    unfoldable mutual
      pub value_to_json : VtValue → Conversion Json
      value_to_json (vec3d_value v) =
          typed vec3d (returned (Form.value_from (vec3_form real_form) v))
      value_to_json (vec3f_value v) =
          typed vec3f (returned (Form.value_from (vec3_form float_form) v))
      value_to_json (boolean_value v) = typed boolean (returned (Form.value_from (bool_form) v))
      value_to_json (specifier_value v) =
          typed specifier (returned (Form.value_from (specifier_form plain) v))
      value_to_json (token_value v) = typed token (returned (Form.value_from (token_form plain) v))
      value_to_json (text_value v) = typed text (returned (Form.value_from (string_form) v))
      value_to_json (variability_value v) =
          typed variability (returned (Form.value_from (variability_form plain) v))
      value_to_json (ints_value v) = typed ints (returned (Form.value_from (array_form int_form) v))
      value_to_json (floats_value v) =
          typed floats (returned (Form.value_from (array_form float_form) v))
      value_to_json (token_array_value v) =
          typed token_array (returned (Form.value_from (array_form (token_form plain)) v))
      value_to_json (vec2fs_value v) =
          typed vec2fs (returned (Form.value_from (array_form (vec2_form float_form)) v))
      value_to_json (vec3fs_value v) =
          typed vec3fs (returned (Form.value_from (array_form (vec3_form float_form)) v))
      value_to_json (double_value v) = typed double (returned (Form.value_from (real_form) v))
      value_to_json (float_value v) = typed float (returned (Form.value_from (float_form) v))
      value_to_json (token_vector_value v) =
          typed token_vector (returned (Form.value_from (array_form (token_form plain)) v))
      value_to_json (matrix4d_value v) = typed matrix4d (matrix_to_json real_form v)
      value_to_json (path_list_op_value v) =
          typed path_list_op (returned (Form.value_from (list_op_form (path_form plain)) v))
      value_to_json (reference_list_op_value v) =
          typed reference_list_op
            (returned (Form.value_from (list_op_form (reference_form plain)) v))
      value_to_json (token_list_op_value v) =
          typed token_list_op (returned (Form.value_from (list_op_form (token_form plain)) v))
      value_to_json (path_vector_value v) =
          typed path_vector (returned (Form.value_from (array_form (path_form plain)) v))
      value_to_json (int_value v) = typed int (returned (Form.value_from (int_form) v))
      value_to_json (dictionary_value v) =
          typed dictionary (do o ← entries_to_members v; converted (of_object o))
      value_to_json (asset_path_value v) =
          typed asset_path (returned (Form.value_from (asset_path_form) v))
      value_to_json value_block_value = typed value_block (converted null)
      value_to_json (other_value name) = threw

      -- The keys of a std::map differ, so each is a new member.
      pub entries_to_members : Entries → Conversion (List (String × Json))
      entries_to_members no_entries = converted []
      entries_to_members (entry key v rest) = do
        j ← value_to_json v
        o ← entries_to_members rest
        converted ((key, j) ∷ o)

    -- The loop over the members of a dictionary: the keys of an object differ too, and the order of
    -- the entries is no part of what they mean.
    unfoldable pub members_to_entries :
        (Json → Conversion VtValue) → List (String × Json) → Conversion Entries
    members_to_entries read [] = converted no_entries
    members_to_entries read ((key, j) ∷ o) = do
      v ← read j
      rest ← members_to_entries read o
      converted (entry key v rest)

    -- The form of the values of one type, and the value that holds one
    abbrev pub read_as : {A : Type 0} → Form A → (A → VtValue) → Json → Conversion VtValue
    read_as form hold j = do v ← returned (form.value_to j); converted (hold v)

    -- The branches of value_to
    unfoldable pub reader : (Json → Conversion VtValue) → Kind → Json → Conversion VtValue
    reader read vec3d j = read_as (vec3_form real_form) vec3d_value j
    reader read vec3f j = read_as (vec3_form float_form) vec3f_value j
    reader read boolean j = read_as bool_form boolean_value j
    reader read specifier j = read_as (specifier_form plain) specifier_value j
    reader read token j = read_as (token_form plain) token_value j
    reader read text j = read_as string_form text_value j
    reader read variability j = read_as (variability_form plain) variability_value j
    reader read ints j = read_as (array_form int_form) ints_value j
    reader read floats j = read_as (array_form float_form) floats_value j
    reader read token_array j = read_as (array_form (token_form plain)) token_array_value j
    reader read vec2fs j = read_as (array_form (vec2_form float_form)) vec2fs_value j
    reader read vec3fs j = read_as (array_form (vec3_form float_form)) vec3fs_value j
    reader read double j = read_as real_form double_value j
    reader read float j = read_as float_form float_value j
    reader read token_vector j = read_as (array_form (token_form plain)) token_vector_value j
    reader read matrix4d j = do
      v ← json_to_matrix real_form blank_matrix j
      converted (matrix4d_value v)
    reader read path_list_op j = read_as (list_op_form (path_form plain)) path_list_op_value j
    reader read reference_list_op j =
        read_as (list_op_form (reference_form plain)) reference_list_op_value j
    reader read token_list_op j = read_as (list_op_form (token_form plain)) token_list_op_value j
    reader read path_vector j = read_as (array_form (path_form plain)) path_vector_value j
    reader read int j = read_as int_form int_value j
    reader read dictionary j = do
      o ← returned (as_object j)
      result ← members_to_entries read o
      converted (dictionary_value result)
    reader read asset_path j = read_as asset_path_form asset_path_value j
    reader read value_block j = converted value_block_value

    -- value_to: a dictionary inside goes one level deeper, which the fuel counts.
    unfoldable pub json_to_value : ℕ → Json → Conversion VtValue
    json_to_value zero j = out_of_fuel
    json_to_value (suc fuel) j = do
      o ← returned (as_object j)
      type ← returned (extract string_form o "type")
      kind ← returned (find_kind type tested_kinds)
      reader (json_to_value fuel) kind (get_or null (at o "data"))

    -- The two as a form, which has the value where there is one
    unfoldable pub value_form : ℕ → Form VtValue
    value_form fuel = record {
      value_from = λ v. value_of (value_to_json v);
      value_to = λ j. value_of (json_to_value fuel j);
    }
