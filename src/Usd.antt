-- ===== src/Usd.antt =====
-- What the program takes from OpenUSD (pxr): paths, tokens, values and spec types. Only the queries
-- that the program makes are named, and nothing is assumed of them here.
use render_studio_kit.Shared.{String, Bool, List, Option, Key}

pub record Usd : Type 1 where
  -- SdfPath, TfToken, VtValue, SdfSpecType
  pub SdfPath : Type 0
  pub Token : Type 0
  pub Value : Type 0
  pub SpecType : Type 0
  pub path_key : Key SdfPath
  pub token_eq : Discrete Token
  pub spec_type_eq : Discrete SpecType
  -- SdfSpecTypeUnknown
  pub unknown : SpecType
  -- SdfPath::IsPrimPath, GetPrimPath, IsAbsoluteRootPath,
  -- and GetNameToken().GetString().find("xformOp:") != npos
  pub is_prim_path : SdfPath → Bool
  pub get_prim_path : SdfPath → SdfPath
  pub is_absolute_root_path : SdfPath → Bool
  pub is_xform_op : SdfPath → Bool
  -- VtValue(), VtValue::IsEmpty
  pub empty_value : Value
  pub is_empty : Value → Bool
  -- The token of a value that holds a TfToken, and TfToken::IsEmpty
  pub held_token : Value → Option Token
  pub is_empty_token : Token → Bool
  -- GetWithDefault<std::vector<TfToken>>, and the value that holds such a vector
  pub tokens : Value → List Token
  pub of_tokens : List Token → Value
  -- The text under "owner" of a value that holds a VtDictionary with that entry
  pub owner_entry : Value → Option String
  -- double as the time of a sample, without NaN; the samples of a value that holds an
  -- SdfTimeSampleMap, and the value that holds such a map
  pub Time : Type 0
  pub time_key : Key Time
  pub held_samples : Value → Option (List (Time × Value))
  pub of_samples : List (Time × Value) → Value
  -- SdfFieldKeys->CustomData, Active and TypeName, SdfChildrenKeys->PrimChildren,
  -- SdfDataTokens->TimeSamples
  pub custom_data : Token
  pub active : Token
  pub type_name : Token
  pub prim_children : Token
  pub time_samples : Token

-- The order and the equality of paths serve the containers that are keyed by paths.
instance abbrev pub path_key : ⦃usd : Usd⦄ → Key usd.SdfPath
path_key ⦃usd⦄ = usd.path_key
