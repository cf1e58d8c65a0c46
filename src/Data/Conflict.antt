-- ===== src/Data/Conflict.antt =====
-- Sources/Resolver/Data.cpp, ApplyDelta: what a remote field update does to the data when the user
-- has edited the same path, and when not.
use render_studio_kit.Shared.{
  ◌≡◌, ◌≢◌, true, false, not, ◌&&◌, ◌++◌, some, ite, arith, if◌then◌else◌,
}
use render_studio_kit.Shared.Dict.{find-put}
use render_studio_kit.Usd.{Usd, path_key}
use render_studio_kit.Data.State.{
  Data, get, get_field_value, get_spec_type, has_spec, create_spec, fields_at,
}
use render_studio_kit.Data.Edit.{set}
use render_studio_kit.Data.UniqueFields.{IsValid, create_spec-IsValid}
use render_studio_kit.Data.Lookup.{get_field_value-set}
use render_studio_kit.Data.LocalDeltas.{is_unacknowledged}
use render_studio_kit.Data.Layer.{Layer, Forwards}
use render_studio_kit.Data.Merge.{deduplicate, merged}
use render_studio_kit.Data.Apply.{
  Progress, is_token, ensure_spec, announce_owner, after_update, require_merge, is_skipped,
  new_value, store_field, update_field, apply_delta,
}

module _ ⦃usd : Usd⦄ (layer : Layer) (forwards : Forwards layer) where
  open usd use {
    SdfPath, Token, Value, SpecType, unknown, spec_type_eq, token_eq, is_xform_op, is_empty, tokens,
    of_tokens, active, type_name, prim_children, path_key as paths,
  }

  -- The data with the spec that a remote update needs
  abbrev pub ensured : Data → SdfPath → SpecType → Data
  ensured d p t = ite (spec_type_eq (get_spec_type d p) unknown) (create_spec d p t) d

  ensure_spec-state :
      (p : SdfPath) (t : SpecType) (st : Progress)
      → (ensure_spec layer p t st).state ≡ ensured st.state p t
  unfolding ensure_spec
  ensure_spec-state p t st =
      ground (arith, forwards.reads_spec_type st.state p, forwards.creates_spec st.state p t)

  prepared-state :
      (p : SdfPath) (key : Token) (v : Value) (t : SpecType) (st : Progress)
      → (announce_owner p key v (ensure_spec layer p t st)).state ≡ ensured st.state p t
  unfolding announce_owner
  prepared-state p key v t st = ground (arith, ensure_spec-state p t st)

  ensured-unacknowledged :
      (d : Data) (p q : SdfPath) (t : SpecType)
      → is_unacknowledged (ensured d p t) q ≡ is_unacknowledged d q
  unfolding create_spec
  ensured-unacknowledged d p q t = ground arith

  ensured-has_spec :
      (d : Data) (p : SdfPath) (t : SpecType) → t ≢ unknown → has_spec (ensured d p t) p ≡ true
  unfolding get_spec_type create_spec has_spec
  ensured-has_spec d p t known =
      ground (arith, find-put p p (record { spec_type = t; fields = fields_at d.table p }) d.table)

  ensured-IsValid : (d : Data) (p : SdfPath) (t : SpecType) → IsValid d → IsValid (ensured d p t)
  ensured-IsValid d p t i = ground (arith, create_spec-IsValid d p t i)

  -- An own edit of a path that waits for its acknowledgement wins: where the path is no
  -- transformation (xformOp) and the field is not primChildren, a remote update of the path, through a
  -- layer that passes its calls on to the data, changes nothing but the spec that it may create.
  pub apply_delta_skipped :
      (p : SdfPath) (key : Token) (v : Value) (t : SpecType) (st : Progress)
      → is_unacknowledged st.state p ≡ true
      → is_xform_op p ≡ false
      → key ≢ prim_children
      → (apply_delta layer p key v t st).state ≡ ensured st.state p t
  unfolding apply_delta update_field is_skipped require_merge is_token
  apply_delta_skipped p key v t st own fixed other =
      ground (arith, prepared-state p key v t st, ensured-unacknowledged st.state p p t)

  after_update-state :
      (p : SdfPath) (key : Token) (v : Value) (st : Progress)
      → key ≢ type_name
      → (after_update p key v st).state ≡ st.state
  unfolding after_update is_token
  after_update-state p key v st other = ground arith

  -- What a remote update that is not skipped writes, unless it sets a type name
  apply_delta-written :
      (p : SdfPath) (key : Token) (v : Value) (t : SpecType) (st : Progress)
      → (is_unacknowledged st.state p && (not (is_xform_op p) && not (is_token key prim_children)))
        ≡ false
      → key ≢ type_name
      → let d = ensured st.state p t in
        (apply_delta layer p key v t st).state
        ≡ set d p key (
            if is_token key prim_children && is_unacknowledged st.state p
            then of_tokens (deduplicate token_eq (tokens v ++ tokens (get d p key)))
            else v)
  unfolding apply_delta update_field is_skipped require_merge new_value store_field merged
  apply_delta-written p key v t st shown other =
      let told = announce_owner p key v (ensure_spec layer p t st) in
      ground (
        arith,
        prepared-state p key v t st,
        ensured-unacknowledged st.state p p t,
        after_update-state p key v (store_field layer p key v told) other,
        forwards.sets_field told.state p key (new_value layer p key v told),
        forwards.reads_field told.state p key,
      )

  -- Through a layer that passes its calls on to the data, and in data where no spec has two fields of one
  -- name, a remote value that is not empty, of a field other than primChildren and typeName and with a
  -- known spec type, is what a lookup answers afterwards, if the user has no edit of the path that waits
  -- for its acknowledgement, or if the path is a transformation (xformOp).
  pub apply_delta_visible :
      (p : SdfPath) (key : Token) (v : Value) (t : SpecType) (st : Progress)
      → IsValid st.state
      → (is_unacknowledged st.state p && not (is_xform_op p)) ≡ false
      → key ≢ prim_children
      → key ≢ type_name
      → t ≢ unknown
      → is_empty v ≡ false
      → get_field_value (apply_delta layer p key v t st).state p key ≡ some v
  unfolding is_token
  apply_delta_visible p key v t st i shown kids other known full =
      let d = ensured st.state p t in
      ground (
        arith,
        apply_delta-written p key v t st,
        get_field_value-set d p p key key v (ensured-IsValid st.state p t i),
        ensured-has_spec st.state p t known,
      )

  -- Children that two users list at once are merged: the remote ones first, and each once.
  pub apply_delta_merged :
      (p : SdfPath) (v m : Value) (t : SpecType) (st : Progress)
      → IsValid st.state
      → is_unacknowledged st.state p ≡ true
      → prim_children ≢ type_name
      → t ≢ unknown
      → m
        ≡ of_tokens
            (deduplicate token_eq (tokens v ++ tokens (get (ensured st.state p t) p prim_children)))
      → is_empty m ≡ false
      → get_field_value (apply_delta layer p prim_children v t st).state p prim_children ≡ some m
  unfolding is_token
  apply_delta_merged p v m t st i own other known e full =
      let d = ensured st.state p t in
      ground (
        arith,
        apply_delta-written p prim_children v t st,
        get_field_value-set d p p prim_children prim_children m (ensured-IsValid st.state p t i),
        ensured-has_spec st.state p t known,
      )
