-- ===== src/Data/Apply.antt =====
-- Sources/Resolver/Data.cpp: ApplyDelta.
use render_studio_kit.Shared.{
  String, Bool, true, false, not, ◌&&◌, List, [], ◌∷◌, ◌++◌, Option, none, some, ite, is_some,
  if◌then◌else◌, string_discrete,
}
use render_studio_kit.Shared.Dict
use render_studio_kit.Usd.{Usd, path_key}
use render_studio_kit.Notice.{PrimitiveChanged, primitive_changed}
use render_studio_kit.Data.State.{Data, erase_spec}
use render_studio_kit.Data.Layer.{Layer}
use render_studio_kit.Data.Merge.{deduplicate, merged}

module _ ⦃usd : Usd⦄ where
  open usd use {
    SdfPath, Token, Value, SpecType, unknown, spec_type_eq, token_eq, is_prim_path, is_xform_op,
    tokens, of_tokens, held_token, is_empty_token, owner_entry, custom_data, active, type_name,
    prim_children,
  }

  -- The data, the notices pushed so far, and the OwnerChanged notices sent so far
  pub record Progress : Type 0 where
    pub state : Data
    pub notices : List PrimitiveChanged
    pub owners : List (SdfPath × Option String)

  unfoldable pub is_token : Token → Token → Bool
  is_token a b = ite (token_eq a b) true false

  abbrev pub push_notice : SdfPath → Bool → Progress → Progress
  push_notice path resynched st = record st {
    notices = st.notices ++ primitive_changed path resynched ∷ [];
  }

  -- "Create field if not exist"
  unfoldable pub ensure_spec : Layer → SdfPath → SpecType → Progress → Progress
  ensure_spec layer path spec st =
      ite (spec_type_eq (layer.layer_spec_type st.state path) unknown)
        (let made : Progress = record st { state = layer.layer_create_spec st.state path spec } in
          if is_prim_path path then push_notice path true made else made)
        st

  -- "None" stands for no owner
  unfoldable pub owner_of : String → Option String
  owner_of name = ite (string_discrete name "None") none (some name)

  -- "Check if it's primitive lock by other user"
  unfoldable pub announce_owner : SdfPath → Token → Value → Progress → Progress
  announce_owner path key value st =
      if is_token key custom_data
      then elim (owner_entry value) [
        | none ↦ st
        | some name ↦ record st { owners = st.owners ++ (path, owner_of name) ∷ [] }
      ]
      else st

  -- What follows a field update: a notice for `active`, and a spec removal for an empty `typeName`
  unfoldable pub after_update : SdfPath → Token → Value → Progress → Progress
  after_update path key value st =
      let st' = if is_token key active then push_notice path true st else st in
      if is_token key type_name
      then elim (held_token value) [
        | none ↦ st'
        | some t ↦
            if is_empty_token t then record st' { state = erase_spec st'.state path } else st'
      ]
      else st'

  -- mUnacknowledgedFields.count(path) > 0
  abbrev pub unacknowledged_yet : SdfPath → Progress → Bool
  unacknowledged_yet path st = is_some (Dict.find path st.state.unacknowledged_fields)

  unfoldable pub require_merge : SdfPath → Token → Progress → Bool
  require_merge path key st = is_token key prim_children && unacknowledged_yet path st

  -- The value that SetField is given
  unfoldable pub new_value : Layer → SdfPath → Token → Value → Progress → Value
  new_value layer path key value st =
      if require_merge path key st
      then of_tokens (
          deduplicate token_eq (
            merged token_eq (unacknowledged_yet path st) (tokens value)
              (tokens (layer.layer_field st.state path key))))
      else value

  unfoldable pub store_field : Layer → SdfPath → Token → Value → Progress → Progress
  store_field layer path key value st = record st {
    state = layer.layer_set_field st.state path key (new_value layer path key value st);
  }

  -- "Ignore all unacknowledged updates except mergeable or which must be force applied"
  unfoldable pub is_skipped : SdfPath → Token → Progress → Bool
  is_skipped path key st =
      not (is_xform_op path) && not (require_merge path key st) && unacknowledged_yet path st

  -- The part of ApplyDelta below the two preparations
  unfoldable pub update_field : Layer → SdfPath → Token → Value → Progress → Progress
  update_field layer path key value st =
      if is_skipped path key st
      then st
      else after_update path key value (store_field layer path key value st)

  unfoldable pub apply_delta : Layer → SdfPath → Token → Value → SpecType → Progress → Progress
  apply_delta layer path key value spec st =
      update_field layer path key value
        (announce_owner path key value (ensure_spec layer path spec st))
