-- ===== src/Data/Requeue.antt =====
-- Sources/Resolver/Data.cpp: the application of an update does not look at the queue.
use render_studio_kit.Shared.{◌≡◌, refl, ◌∙◌, ap, [], ◌∷◌, arith}
use render_studio_kit.Usd.{Usd}
use render_studio_kit.Data.State.{
  Fields, SpecData, HashTable, Data, create_spec, erase_spec, get_spec_type, get, get_field_value,
}
use render_studio_kit.Data.Edit.{
  write_field_value, write_field_value_delta, delta_spec, set_const, set, erase,
}
use render_studio_kit.Data.Layer.{Layer, Forwards}
use render_studio_kit.Data.Apply.{
  Progress, ensure_spec, announce_owner, after_update, require_merge, is_skipped, new_value,
  store_field, update_field, apply_delta,
}
use render_studio_kit.Data.Process.{apply_fields, apply_spec, apply_deltas}
use render_studio_kit.Data.Delivery.{Updates}

module _ ⦃usd : Usd⦄ where
  open usd use {SdfPath, Token, Value, SpecType}

  abbrev pub with_queue : Updates → Data → Data
  with_queue q d = record d { remote_deltas_queue = q }

  abbrev pub requeue : Updates → Progress → Progress
  requeue q st = record st { state = with_queue q st.state }

  create_spec-with_queue :
      (q : Updates) (d : Data) (p : SdfPath) (t : SpecType)
      → create_spec (with_queue q d) p t ≡ with_queue q (create_spec d p t)
  unfolding create_spec
  create_spec-with_queue q d p t = ground arith

  erase_spec-with_queue :
      (q : Updates) (d : Data) (p : SdfPath)
      → erase_spec (with_queue q d) p ≡ with_queue q (erase_spec d p)
  unfolding erase_spec
  erase_spec-with_queue q d p = ground arith

  set-with_queue :
      (q : Updates) (d : Data) (p : SdfPath) (f : Token) (v : Value)
      → set (with_queue q d) p f v ≡ with_queue q (set d p f v)
  unfolding set set_const erase write_field_value write_field_value_delta delta_spec
  set-with_queue q d p f v = ground arith

  module _ (layer : Layer) (forwards : Forwards layer) (q : Updates) where
    ensure_spec-requeue :
        (path : SdfPath) (t : SpecType) (st : Progress)
        → ensure_spec layer path t (requeue q st) ≡ requeue q (ensure_spec layer path t st)
    unfolding ensure_spec get_spec_type
    ensure_spec-requeue path t st = ground (
      arith,
      forwards.creates_spec st.state path t,
      forwards.creates_spec (with_queue q st.state) path t,
      forwards.reads_spec_type st.state path,
      forwards.reads_spec_type (with_queue q st.state) path,
      create_spec-with_queue q st.state path t,
    )

    announce_owner-requeue :
        (path : SdfPath) (key : Token) (v : Value) (st : Progress)
        → announce_owner path key v (requeue q st) ≡ requeue q (announce_owner path key v st)
    unfolding announce_owner
    announce_owner-requeue path key v st = ground arith

    after_update-requeue :
        (path : SdfPath) (key : Token) (v : Value) (st : Progress)
        → after_update path key v (requeue q st) ≡ requeue q (after_update path key v st)
    unfolding after_update
    after_update-requeue path key v st = ground (arith, erase_spec-with_queue q st.state path)

    new_value-requeue :
        (path : SdfPath) (key : Token) (v : Value) (st : Progress)
        → new_value layer path key v (requeue q st) ≡ new_value layer path key v st
    unfolding new_value require_merge get get_field_value
    new_value-requeue path key v st = ground (
      arith,
      forwards.reads_field st.state path key,
      forwards.reads_field (with_queue q st.state) path key,
    )

    store_field-requeue :
        (path : SdfPath) (key : Token) (v : Value) (st : Progress)
        → store_field layer path key v (requeue q st) ≡ requeue q (store_field layer path key v st)
    unfolding store_field
    store_field-requeue path key v st =
        let w = new_value layer path key v st in
        ground (
          arith,
          new_value-requeue path key v st,
          forwards.sets_field st.state path key w,
          forwards.sets_field (with_queue q st.state) path key w,
          set-with_queue q st.state path key w,
        )

    update_field-requeue :
        (path : SdfPath) (key : Token) (v : Value) (st : Progress)
        → update_field layer path key v (requeue q st)
          ≡ requeue q (update_field layer path key v st)
    unfolding update_field is_skipped require_merge
    update_field-requeue path key v st = ground (
      arith,
      store_field-requeue path key v st,
      after_update-requeue path key v (store_field layer path key v st),
    )

    apply_delta-requeue :
        (path : SdfPath) (key : Token) (v : Value) (t : SpecType) (st : Progress)
        → apply_delta layer path key v t (requeue q st)
          ≡ requeue q (apply_delta layer path key v t st)
    unfolding apply_delta
    apply_delta-requeue path key v t st = ground (
      arith,
      ensure_spec-requeue path t st,
      announce_owner-requeue path key v (ensure_spec layer path t st),
      update_field-requeue path key v (announce_owner path key v (ensure_spec layer path t st)),
    )

    apply_fields-requeue :
        (path : SdfPath) (t : SpecType) (fields : Fields) (st : Progress)
        → apply_fields layer path t fields (requeue q st)
          ≡ requeue q (apply_fields layer path t fields st)
    unfolding apply_fields
    apply_fields-requeue path t [] st = refl
    apply_fields-requeue path t ((key, v) ∷ fields) st =
        ap (apply_fields layer path t fields) (apply_delta-requeue path key v t st)
        ∙ apply_fields-requeue path t fields (apply_delta layer path key v t st)

    apply_spec-requeue :
        (path : SdfPath) (delta : SpecData) (st : Progress)
        → apply_spec layer path delta (requeue q st) ≡ requeue q (apply_spec layer path delta st)
    unfolding apply_spec
    apply_spec-requeue path delta st =
        ground (arith, apply_fields-requeue path delta.spec_type delta.fields st)

    pub apply_deltas-requeue :
        (deltas : HashTable) (st : Progress)
        → apply_deltas layer deltas (requeue q st) ≡ requeue q (apply_deltas layer deltas st)
    unfolding apply_deltas
    apply_deltas-requeue [] st = refl
    apply_deltas-requeue ((path, delta) ∷ deltas) st =
        ap (apply_deltas layer deltas) (apply_spec-requeue path delta st)
        ∙ apply_deltas-requeue deltas (apply_spec layer path delta st)
