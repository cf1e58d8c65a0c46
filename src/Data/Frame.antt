-- ===== src/Data/Frame.antt =====
-- Sources/Resolver/Data.cpp: what the application of one remote update leaves alone.
use render_studio_kit.Shared.{◌≡◌, refl, ◌∙◌, ap, subst, true, [], ◌∷◌, arith}
use render_studio_kit.Usd.{Usd}
use render_studio_kit.Data.State.{Fields, SpecData, HashTable, Data, create_spec, erase_spec}
use render_studio_kit.Data.Edit.{write_field_value, set_const, set, erase}
use render_studio_kit.Data.Layer.{Layer, Forwards}
use render_studio_kit.Data.Apply.{
  Progress, ensure_spec, announce_owner, after_update, new_value, store_field, update_field,
  apply_delta,
}
use render_studio_kit.Data.Process.{apply_fields, apply_spec, apply_deltas}

module _ ⦃usd : Usd⦄ where
  open usd use {SdfPath, Token, Value, SpecType}

  -- The flags, the sequence number, the queue and the own edits that wait are those of before.
  pub record Frame (d e : Data) : Type 0 where
    pub same_deltas : e.local_deltas ≡ d.local_deltas
    pub same_sequence : e.latest_applied_sequence ≡ d.latest_applied_sequence
    pub same_queue : e.remote_deltas_queue ≡ d.remote_deltas_queue
    pub same_loaded : e.is_loaded ≡ d.is_loaded
    pub still_processing : e.is_processing_remote_updates ≡ true

  Frame-refl : (d : Data) → d.is_processing_remote_updates ≡ true → Frame d d
  Frame-refl d h = record {
    same_deltas = refl;
    same_sequence = refl;
    same_queue = refl;
    same_loaded = refl;
    still_processing = h;
  }

  Frame-trans : (a b c : Data) → Frame a b → Frame b c → Frame a c
  Frame-trans a b c f g = record {
    same_deltas = g.same_deltas ∙ f.same_deltas;
    same_sequence = g.same_sequence ∙ f.same_sequence;
    same_queue = g.same_queue ∙ f.same_queue;
    same_loaded = g.same_loaded ∙ f.same_loaded;
    still_processing = g.still_processing;
  }

  create_spec-Frame :
      (d : Data) (p : SdfPath) (t : SpecType)
      → d.is_processing_remote_updates ≡ true
      → Frame d (create_spec d p t)
  unfolding create_spec
  create_spec-Frame d p t h = ground arith

  erase_spec-Frame :
      (d : Data) (p : SdfPath) → d.is_processing_remote_updates ≡ true → Frame d (erase_spec d p)
  unfolding erase_spec
  erase_spec-Frame d p h = ground arith

  set-Frame :
      (d : Data) (p : SdfPath) (f : Token) (v : Value)
      → d.is_processing_remote_updates ≡ true
      → Frame d (set d p f v)
  unfolding set set_const erase write_field_value
  set-Frame d p f v h = ground arith

  module _ (layer : Layer) (forwards : Forwards layer) where
    ensure_spec-Frame :
        (path : SdfPath) (t : SpecType) (st : Progress)
        → st.state.is_processing_remote_updates ≡ true
        → Frame st.state (ensure_spec layer path t st).state
    unfolding ensure_spec
    ensure_spec-Frame path t st h =
        ground (arith, forwards.creates_spec st.state path t, create_spec-Frame st.state path t h)

    announce_owner-state :
        (path : SdfPath) (key : Token) (v : Value) (st : Progress)
        → (announce_owner path key v st).state ≡ st.state
    unfolding announce_owner
    announce_owner-state path key v st = ground arith

    after_update-Frame :
        (path : SdfPath) (key : Token) (v : Value) (st : Progress)
        → st.state.is_processing_remote_updates ≡ true
        → Frame st.state (after_update path key v st).state
    unfolding after_update
    after_update-Frame path key v st h = ground (arith, erase_spec-Frame st.state path h)

    store_field-Frame :
        (path : SdfPath) (key : Token) (v : Value) (st : Progress)
        → st.state.is_processing_remote_updates ≡ true
        → Frame st.state (store_field layer path key v st).state
    unfolding store_field
    store_field-Frame path key v st h =
        let w = new_value layer path key v st in
        ground (arith, forwards.sets_field st.state path key w, set-Frame st.state path key w h)

    update_field-Frame :
        (path : SdfPath) (key : Token) (v : Value) (st : Progress)
        → st.state.is_processing_remote_updates ≡ true
        → Frame st.state (update_field layer path key v st).state
    unfolding update_field
    update_field-Frame path key v st h =
        let stored = store_field layer path key v st in
        let f : Frame st.state stored.state = store_field-Frame path key v st h in
        ground (
          arith,
          Frame-refl st.state h,
          Frame-trans st.state stored.state (after_update path key v stored).state f
              (after_update-Frame path key v stored f.still_processing),
        )

    apply_delta-Frame :
        (path : SdfPath) (key : Token) (v : Value) (t : SpecType) (st : Progress)
        → st.state.is_processing_remote_updates ≡ true
        → Frame st.state (apply_delta layer path key v t st).state
    unfolding apply_delta
    apply_delta-Frame path key v t st h =
        let made = ensure_spec layer path t st in
        let f : Frame st.state made.state = ensure_spec-Frame path t st h in
        let told = announce_owner path key v made in
        let same : told.state ≡ made.state = announce_owner-state path key v made in
        Frame-trans st.state made.state (update_field layer path key v told).state f (
          subst (λ d. Frame d (update_field layer path key v told).state) same
            (update_field-Frame path key v told
              (ap (λ (d : Data). d.is_processing_remote_updates) same ∙ f.still_processing)))

    apply_fields-Frame :
        (path : SdfPath) (t : SpecType) (fields : Fields) (st : Progress)
        → st.state.is_processing_remote_updates ≡ true
        → Frame st.state (apply_fields layer path t fields st).state
    unfolding apply_fields
    apply_fields-Frame path t [] st h = Frame-refl st.state h
    apply_fields-Frame path t ((key, v) ∷ fields) st h =
        let f = apply_delta-Frame path key v t st h in
        Frame-trans st.state _ _ f (apply_fields-Frame path t fields _ f.still_processing)

    apply_spec-Frame :
        (path : SdfPath) (delta : SpecData) (st : Progress)
        → st.state.is_processing_remote_updates ≡ true
        → Frame st.state (apply_spec layer path delta st).state
    unfolding apply_spec
    apply_spec-Frame path delta st h =
        ground (arith, apply_fields-Frame path delta.spec_type delta.fields st h)

    -- Applying an update leaves alone the own edits that wait, the sequence number and the queue.
    pub apply_deltas-Frame :
        (deltas : HashTable) (st : Progress)
        → st.state.is_processing_remote_updates ≡ true
        → Frame st.state (apply_deltas layer deltas st).state
    unfolding apply_deltas
    apply_deltas-Frame [] st h = Frame-refl st.state h
    apply_deltas-Frame ((path, delta) ∷ deltas) st h =
        let f = apply_spec-Frame path delta st h in
        Frame-trans st.state _ _ f (apply_deltas-Frame deltas _ f.still_processing)
