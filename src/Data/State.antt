-- ===== src/Data/State.antt =====
-- Sources/Resolver/Data.h and Data.cpp: the state, and the operations on specs and the queries.
-- TF_VERIFY logs and returns its condition; the log is left out.
use render_studio_kit.Shared.{
  ℕ, Bool, true, false, List, [], ◌∷◌, Option, none, some, map, ite, is_some, get_or, if◌then◌else◌,
}
use render_studio_kit.Shared.Dict
use render_studio_kit.Usd.{Usd, path_key}

module _ ⦃usd : Usd⦄ where
  open usd use {SdfPath, Token, Value, SpecType, unknown, empty_value, token_eq, spec_type_eq}

  -- std::vector<_FieldValuePair>
  abbrev pub Fields : Type 0
  Fields = List (Token × Value)

  -- struct _SpecData
  pub record SpecData : Type 0 where
    pub spec_type : SpecType
    pub fields : Fields

  -- typedef TfHashMap<_Key, _SpecData, _KeyHash> _HashTable
  abbrev pub HashTable : Type 0
  HashTable = List (SdfPath × SpecData)

  -- class RenderStudioData; `table` is mData. The mutex makes each locked method one step.
  pub record Data : Type 0 where
    pub table : HashTable
    pub local_deltas : HashTable
    pub unacknowledged_fields : List (SdfPath × Unit {0})
    pub latest_applied_sequence : ℕ
    pub remote_deltas_queue : List (ℕ × HashTable)
    pub is_loaded : Bool
    pub is_processing_remote_updates : Bool

  -- RenderStudioData::RenderStudioData, with the members' initialisers
  abbrev pub init : Data
  init = record {
    table = [];
    local_deltas = [];
    unacknowledged_fields = [];
    latest_applied_sequence = 0;
    remote_deltas_queue = [];
    is_loaded = false;
    is_processing_remote_updates = false;
  }

  unfoldable pub on_loaded : Data → Data
  on_loaded d = record d {
    is_loaded = true;
    local_deltas = [];
    unacknowledged_fields = [];
    latest_applied_sequence = 0;
    remote_deltas_queue = [];
  }

  unfoldable pub has_spec : Data → SdfPath → Bool
  has_spec d p = is_some (Dict.find p d.table)

  unfoldable pub erase_spec : Data → SdfPath → Data
  erase_spec d p = elim (Dict.find p d.table) [
    | none ↦ d
    | some s ↦ record d { table = Dict.erase p d.table }
  ]

  unfoldable pub move_spec : Data → SdfPath → SdfPath → Data
  move_spec d old_path new_path = elim (Dict.find old_path d.table) [
    | none ↦ d
    | some old ↦
        if is_some (Dict.find new_path d.table)
        then d
        else record d { table = Dict.erase old_path (Dict.put new_path old d.table) }
  ]

  unfoldable pub get_spec_type : Data → SdfPath → SpecType
  get_spec_type d p = elim (Dict.find p d.table) [ none ↦ unknown | some s ↦ s.spec_type ]

  -- The fields under a key that `operator[]` creates where it is missing
  abbrev pub fields_at : HashTable → SdfPath → Fields
  fields_at m p = elim (Dict.find p m) [ none ↦ [] | some s ↦ s.fields ]

  unfoldable pub create_spec : Data → SdfPath → SpecType → Data
  create_spec d p t = ite (spec_type_eq t unknown) d (record d {
    table = Dict.put p (record { spec_type = t; fields = fields_at d.table p }) d.table;
  })

  -- _VisitSpecs: the visitor's state is passed along, and `false` stops the walk.
  unfoldable pub visit_specs : {S : Type 0} → (S → SdfPath → S × Bool) → S → HashTable → S
  visit_specs visit s [] = s
  visit_specs visit s ((p, spec) ∷ m) =
      let (s', more) = visit s p in let rest = visit_specs visit s' m in if more then rest else s'

  -- The loop over `spec.fields` of the three field lookups
  unfoldable pub find_field : Token → Fields → Option Value
  find_field f [] = none
  find_field f ((g, v) ∷ fs) = ite (token_eq g f) (some v) (find_field f fs)

  unfoldable pub get_field_value : Data → SdfPath → Token → Option Value
  get_field_value d p f = elim (Dict.find p d.table) [
    | none ↦ none
    | some s ↦ find_field f s.fields
  ]

  -- The spec type is an out parameter.
  unfoldable pub get_spec_type_and_field_value : Data → SdfPath → Token → Option Value × SpecType
  get_spec_type_and_field_value d p f = elim (Dict.find p d.table) [
    | none ↦ (none, unknown)
    | some s ↦ (find_field f s.fields, s.spec_type)
  ]

  -- Has with an SdfAbstractDataValue: `none` is the null pointer, `some` its StoreValue.
  unfoldable pub has : Data → SdfPath → Token → Option (Value → Bool) → Bool
  has d p f value = elim (get_field_value d p f) [
    | none ↦ false
    | some v ↦ elim value [ none ↦ true | some store_value ↦ store_value v ]
  ]

  unfoldable pub has_spec_and_field :
      Data → SdfPath → Token → Option (Value → Bool) → Bool × SpecType
  has_spec_and_field d p f value =
      let (found, t) = get_spec_type_and_field_value d p f in
      (
        elim found [
          | none ↦ false
          | some v ↦ elim value [ none ↦ true | some store_value ↦ store_value v ]
        ],
        t,
      )

  unfoldable pub get : Data → SdfPath → Token → Value
  get d p f = get_or empty_value (get_field_value d p f)

  unfoldable pub list : Data → SdfPath → List Token
  list d p = map (λ f. f.0) (fields_at d.table p)
