-- ===== src/Data/Edit.antt =====
-- Sources/Resolver/Data.cpp: writing and erasing fields, with the record of local edits.
use render_studio_kit.Shared.{not, ◌||◌, [], ◌∷◌, Option, none, some, ite, is_some, if◌then◌else◌}
use render_studio_kit.Shared.Dict
use render_studio_kit.Usd.{Usd, path_key}
use render_studio_kit.Data.State.{Fields, SpecData, HashTable, Data, find_field}

module _ ⦃usd : Usd⦄ where
  open usd use {SdfPath, Token, Value, is_empty, token_eq}

  -- The loop of _GetOrCreateFieldValue and the write through the pointer that it returns
  unfoldable pub put_field : Token → Value → Fields → Fields
  put_field f v [] = (f, v) ∷ []
  put_field f v ((g, w) ∷ fs) = ite (token_eq g f) ((g, v) ∷ fs) ((g, w) ∷ put_field f v fs)

  -- The loop of Erase: the first match goes
  unfoldable pub remove_field : Token → Fields → Fields
  remove_field f [] = []
  remove_field f ((g, w) ∷ fs) = ite (token_eq g f) fs ((g, w) ∷ remove_field f fs)

  -- _GetOrCreateFieldValue, and the write; there is no write where there is no spec
  unfoldable pub write_field_value : Data → SdfPath → Token → Value → Data
  write_field_value d p f v = elim (Dict.find p d.table) [
    | none ↦ d
    | some s ↦ record d {
      table = Dict.put p (record s { fields = put_field f v s.fields }) d.table;
    }
  ]

  -- The spec of mLocalDeltas under the path, new with the spec type of mData if it was missing
  unfoldable pub delta_spec : Data → SdfPath → Option SpecData
  delta_spec d p = elim (Dict.find p d.local_deltas) [
    | some s ↦ some s
    | none ↦ elim (Dict.find p d.table) [
      | none ↦ none
      | some s ↦ some (record { spec_type = s.spec_type; fields = [] })
    ]
  ]

  -- _GetOrCreateFieldValueDelta, and the write; a new field makes the path unacknowledged
  unfoldable pub write_field_value_delta : Data → SdfPath → Token → Value → Data
  write_field_value_delta d p f v = elim (delta_spec d p) [
    | none ↦ d
    | some s ↦ record d {
      local_deltas = Dict.put p (record s { fields = put_field f v s.fields }) d.local_deltas;
      unacknowledged_fields =
          if is_some (find_field f s.fields)
          then d.unacknowledged_fields
          else Dict.put p tt d.unacknowledged_fields;
    }
  ]

  -- Set with an SdfAbstractDataConstValue, of which `v` is the value
  unfoldable pub set_const : Data → SdfPath → Token → Value → Data
  set_const d p f v =
      let d' = write_field_value d p f v in
      if d'.is_processing_remote_updates || not d'.is_loaded
      then d'
      else write_field_value_delta d' p f v

  unfoldable pub erase : Data → SdfPath → Token → Data
  erase d p f = elim (Dict.find p d.table) [
    | none ↦ d
    | some s ↦ record d {
      table = Dict.put p (record s { fields = remove_field f s.fields }) d.table;
    }
  ]

  -- Set with a VtValue
  unfoldable pub set : Data → SdfPath → Token → Value → Data
  set d p f v = if is_empty v then erase d p f else set_const d p f v

  unfoldable pub fetch_local_deltas : Data → Data × HashTable
  fetch_local_deltas d = (record d { local_deltas = [] }, d.local_deltas)
