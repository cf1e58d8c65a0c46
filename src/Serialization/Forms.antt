-- ===== src/Serialization/Forms.antt =====
-- Sources/Serialization/Serialization.cpp and Serialization.h: the JSON forms of the types that a
-- value can hold, but for values and dictionaries themselves.
use render_studio_kit.Shared.{
  String, Bool, true, false, ◌≡◌, List, [], ◌∷◌, some, ite, is_nil, get_elem?, if◌then◌else◌,
  string_discrete,
}
use render_studio_kit.Shared.Options.{◌>>=◌}
use render_studio_kit.Usd.{Usd}
use render_studio_kit.Serialization.Json.{JsonLibrary, Form, IsFaithful, extract, array_form}

-- SdfAssetPath
pub record AssetPath : Type 0 where
  pub asset : String
  pub resolved : String

-- SdfListOp<T>
pub record ListOp (A : Type 0) : Type 0 where
  pub is_explicit : Bool
  pub explicit_items : List A
  pub added_items : List A
  pub prepended_items : List A
  pub appended_items : List A
  pub deleted_items : List A
  pub ordered_items : List A

-- SdfListOp<T>::CreateExplicit and SdfListOp<T>::Create
abbrev pub create_explicit : {A : Type 0} → List A → ListOp A
create_explicit items = record {
  is_explicit = true;
  explicit_items = items;
  added_items = [];
  prepended_items = [];
  appended_items = [];
  deleted_items = [];
  ordered_items = [];
}

abbrev pub create_edits : {A : Type 0} → List A → List A → List A → ListOp A
create_edits prepended appended deleted = record {
  is_explicit = false;
  explicit_items = [];
  added_items = [];
  prepended_items = prepended;
  appended_items = appended;
  deleted_items = deleted;
  ordered_items = [];
}

-- What the reader of a list operation makes of the lists: the added and the ordered items are
-- left out, and a list operation is explicit if there are explicit items.
unfoldable pub list_op_of : {A : Type 0} → List A → List A → List A → List A → ListOp A
list_op_of explicit_items prepended appended deleted =
    if is_nil explicit_items
    then create_edits prepended appended deleted
    else create_explicit explicit_items

module _ ⦃usd : Usd⦄ ⦃json : JsonLibrary⦄ where
  open usd use {SdfPath, Token, SpecType}
  open json use {
    Json, of_string, as_string, of_array, as_array, of_object, as_object, of_bool, as_bool,
  }

  -- What OpenUSD and Boost.JSON do for the plain types: `Real` is double, `Float` is float and `Int`
  -- is std::int32_t, of which only finite values have a JSON form.
  pub record Plain : Type 1 where
    pub Real : Type 0
    pub Float : Type 0
    pub Int : Type 0
    pub real_form : Form Real
    pub float_form : Form Float
    pub int_form : Form Int
    -- SdfPath::GetString, SdfPath(std::string), SdfPath(), TfToken::GetString, TfToken(std::string)
    pub path_text : SdfPath → String
    pub path_of : String → SdfPath
    pub empty_path : SdfPath
    pub token_text : Token → String
    pub token_of : String → Token
    -- The enumerations SdfSpecifier and SdfVariability, and the casts to and from std::int32_t
    pub Specifier : Type 0
    pub Variability : Type 0
    pub specifier_number : Specifier → Int
    pub specifier_of : Int → Specifier
    pub variability_number : Variability → Int
    pub variability_of : Int → Variability
    pub spec_type_number : SpecType → Int
    pub spec_type_of : Int → SpecType

  unfoldable pub string_form : Form String
  string_form = record { value_from = λ s. some (of_string s); value_to = as_string }

  unfoldable pub bool_form : Form Bool
  bool_form = record { value_from = λ b. some (of_bool b); value_to = as_bool }

  unfoldable pub asset_path_form : Form AssetPath
  asset_path_form = record {
    value_from = λ v.
        some (of_object (("asset", of_string v.asset) ∷ ("resolved", of_string v.resolved) ∷ []));
    value_to = λ j. (do
      o ← as_object j
      asset ← extract string_form o "asset"
      resolved ← extract string_form o "resolved"
      some (record { asset = asset; resolved = resolved }));
  }

  -- GfVec2f, and GfVec3d and GfVec3f: an array of the coordinates, of which further ones are ignored
  unfoldable pub vec2_form : {A : Type 0} → Form A → Form (A × A)
  vec2_form form = record {
    value_from =
        λ v. (do x ← form.value_from v.0; y ← form.value_from v.1; some (of_array (x ∷ y ∷ [])));
    value_to = λ j. (do
      js ← as_array j
      x ← get_elem? js 0 >>= form.value_to
      y ← get_elem? js 1 >>= form.value_to
      some (x, y));
  }

  unfoldable pub vec3_form : {A : Type 0} → Form A → Form (A × A × A)
  vec3_form form = record {
    value_from = λ v. (do
      x ← form.value_from v.0
      y ← form.value_from v.1
      z ← form.value_from v.2
      some (of_array (x ∷ y ∷ z ∷ [])));
    value_to = λ j. (do
      js ← as_array j
      x ← get_elem? js 0 >>= form.value_to
      y ← get_elem? js 1 >>= form.value_to
      z ← get_elem? js 2 >>= form.value_to
      some (x, y, z));
  }

  -- An enumeration by its number
  unfoldable pub enum_form : {N E : Type 0} → Form N → (E → N) → (N → E) → Form E
  enum_form form number of = record {
    value_from = λ v. form.value_from (number v);
    value_to = λ j. (do n ← form.value_to j; some (of n));
  }

  unfoldable pub list_op_form : {A : Type 0} → Form A → Form (ListOp A)
  list_op_form form =
      let items = array_form form in
      record {
        value_from = λ v. (do
          explicit_items ← items.value_from v.explicit_items
          added ← items.value_from v.added_items
          prepended ← items.value_from v.prepended_items
          appended ← items.value_from v.appended_items
          deleted ← items.value_from v.deleted_items
          ordered ← items.value_from v.ordered_items
          some (
              of_object (
                ("explicit", explicit_items)
                ∷ ("added", added)
                ∷ ("prepended", prepended)
                ∷ ("appended", appended)
                ∷ ("deleted", deleted)
                ∷ ("ordered", ordered)
                ∷ [])));
        value_to = λ j. (do
          o ← as_object j
          explicit_items ← extract items o "explicit"
          added ← extract items o "added"
          prepended ← extract items o "prepended"
          appended ← extract items o "appended"
          deleted ← extract items o "deleted"
          ordered ← extract items o "ordered"
          some (list_op_of explicit_items prepended appended deleted));
      }

  -- What OpenUSD and Boost.JSON promise for the plain types
  pub record IsPlain (plain : Plain) : Type 0 where
    pub keeps_real : IsFaithful plain.real_form
    pub keeps_float : IsFaithful plain.float_form
    pub keeps_int : IsFaithful plain.int_form
    pub keeps_path :
        (p : SdfPath)
        → ite
            (string_discrete (plain.path_text p) "")
            plain.empty_path
            (plain.path_of (plain.path_text p))
          ≡ p
    pub keeps_token : (t : Token) → plain.token_of (plain.token_text t) ≡ t
    pub keeps_specifier : (v : plain.Specifier) → plain.specifier_of (plain.specifier_number v) ≡ v
    pub keeps_variability :
        (v : plain.Variability) → plain.variability_of (plain.variability_number v) ≡ v
    pub keeps_spec_type : (v : SpecType) → plain.spec_type_of (plain.spec_type_number v) ≡ v

  module _ (plain : Plain) where
    open plain use {
      Real, Float, Int, real_form, float_form, int_form, path_text, path_of, empty_path, token_text,
      token_of, Specifier, Variability, specifier_number, specifier_of, variability_number,
      variability_of, spec_type_number, spec_type_of,
    }

    unfoldable pub path_form : Form SdfPath
    path_form = record {
      value_from = λ p. some (of_string (path_text p));
      value_to = λ j. (do
        text ← as_string j
        some (ite (string_discrete text "") empty_path (path_of text)));
    }

    unfoldable pub token_form : Form Token
    token_form = record {
      value_from = λ t. some (of_string (token_text t));
      value_to = λ j. (do text ← as_string j; some (token_of text));
    }

    unfoldable pub specifier_form : Form Specifier
    specifier_form = enum_form int_form specifier_number specifier_of

    unfoldable pub variability_form : Form Variability
    variability_form = enum_form int_form variability_number variability_of

    unfoldable pub spec_type_form : Form SpecType
    spec_type_form = enum_form int_form spec_type_number spec_type_of

    -- SdfLayerOffset
    pub record LayerOffset : Type 0 where
      pub offset : Real
      pub scale : Real

    unfoldable pub layer_offset_form : Form LayerOffset
    layer_offset_form = record {
      value_from = λ v. (do
        offset ← real_form.value_from v.offset
        scale ← real_form.value_from v.scale
        some (of_object (("offset", offset) ∷ ("scale", scale) ∷ [])));
      value_to = λ j. (do
        o ← as_object j
        offset ← extract real_form o "offset"
        scale ← extract real_form o "scale"
        some (record { offset = offset; scale = scale }));
    }

    -- SdfReference, but for its custom data, which has no JSON form
    pub record Reference : Type 0 where
      pub asset : String
      pub prim : SdfPath
      pub offset : LayerOffset

    unfoldable pub reference_form : Form Reference
    reference_form = record {
      value_from = λ v. (do
        prim ← path_form.value_from v.prim
        offset ← layer_offset_form.value_from v.offset
        some (of_object (("asset", of_string v.asset) ∷ ("prim", prim) ∷ ("offset", offset) ∷ [])));
      value_to = λ j. (do
        o ← as_object j
        asset ← extract string_form o "asset"
        prim ← extract path_form o "prim"
        offset ← extract layer_offset_form o "offset"
        some (record { asset = asset; prim = prim; offset = offset }));
    }
