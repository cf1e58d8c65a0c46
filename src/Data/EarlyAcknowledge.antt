-- ===== src/Data/EarlyAcknowledge.antt =====
-- Sources/Resolver/Data.cpp: mUnacknowledgedFields is a set, so the acknowledgement of one edit also
-- clears the mark of a later edit of the path that is still to be sent.
use render_studio_kit.Shared.{◌≡◌, ◌≢◌, ◌∙◌, true, false, [], some, arith}
use render_studio_kit.Shared.Dict
use render_studio_kit.Shared.Dict.{find-erase, find-put}
use render_studio_kit.Usd.{Usd, path_key}
use render_studio_kit.Data.State.{SpecData, Data, get_field_value, has_spec}
use render_studio_kit.Data.Edit.{set, fetch_local_deltas}
use render_studio_kit.Data.UniqueFields.{IsValid, set-IsValid}
use render_studio_kit.Data.Lookup.{get_spec_type-set}
use render_studio_kit.Data.LocalDeltas.{pending_value, is_unacknowledged, set_recorded, set-flags}
use render_studio_kit.Data.Layer.{Layer, Forwards}
use render_studio_kit.Data.Apply.{apply_delta}
use render_studio_kit.Data.Process.{apply_spec, begin_processing}
use render_studio_kit.Data.Conflict.{apply_delta_visible}

module _ ⦃usd : Usd⦄ where
  open usd use {
    SdfPath, Token, Value, SpecType, unknown, is_empty, is_xform_op, type_name, prim_children,
  }

  -- The delta that stands for an acknowledgement
  abbrev pub acknowledgement : SpecData
  acknowledgement = record { spec_type = unknown; fields = [] }

  -- An edit, its sending, and a second edit of the same field
  abbrev pub edited_twice : Data → SdfPath → Token → Value → Value → Data
  edited_twice d p f v w = set (fetch_local_deltas (set d p f v)).0 p f w

  edited_twice-pending :
      (d : Data) (p : SdfPath) (f : Token) (v w : Value)
      → d.is_loaded ≡ true
      → d.is_processing_remote_updates ≡ false
      → has_spec d p ≡ true
      → is_empty w ≡ false
      → let e = edited_twice d p f v w in
        (pending_value e p f ≡ some w) × (is_unacknowledged e p ≡ true)
  unfolding fetch_local_deltas has_spec Dict.find
  edited_twice-pending d p f v w loaded idle spec full =
      let first = set d p f v in
      let sent = (fetch_local_deltas first).0 in
      let same = set-flags d p f v in
      ground (
        arith,
        same,
        get_spec_type-set d p p f v,
        set_recorded sent p p f f w (same.0 ∙ loaded) (same.1 ∙ idle) full
            ((get_spec_type-set d p p f v).1 ∙ spec),
      )

  edited_twice-IsValid :
      (d : Data) (p : SdfPath) (f : Token) (v w : Value)
      → IsValid d
      → IsValid (edited_twice d p f v w)
  unfolding fetch_local_deltas
  edited_twice-IsValid d p f v w i =
      let i' = set-IsValid d p f v i in
      set-IsValid (fetch_local_deltas (set d p f v)).0 p f w
        (record { stored = i'.stored; pending = tt })

  -- The user edits a field, the edit is sent, the user edits the field again, and the acknowledgement
  -- of the first edit arrives. The second edit still waits to be sent, the path counts as
  -- acknowledged, and the next remote value of the field takes the place of the second edit, which
  -- the server will number later.
  pub apply_spec_early :
      (layer : Layer) (d : Data) (p : SdfPath) (f : Token) (v w r : Value) (t : SpecType)
      → Forwards layer
      → IsValid d
      → d.is_loaded ≡ true
      → d.is_processing_remote_updates ≡ false
      → has_spec d p ≡ true
      → is_empty w ≡ false
      → is_empty r ≡ false
      → f ≢ prim_children
      → f ≢ type_name
      → t ≢ unknown
      → let e = edited_twice d p f v w in
        let a = apply_spec layer p acknowledgement (begin_processing e) in
        (is_unacknowledged e p ≡ true)
        × (pending_value a.state p f ≡ some w)
        × (is_unacknowledged a.state p ≡ false)
        × (get_field_value (apply_delta layer p f r t a).state p f ≡ some r)
  unfolding apply_spec begin_processing
  apply_spec_early layer d p f v w r t forwards i loaded idle spec full full' kids name known =
      let e = edited_twice d p f v w in
      let a = apply_spec layer p acknowledgement (begin_processing e) in
      let two = edited_twice-pending d p f v w loaded idle spec full in
      let i' = edited_twice-IsValid d p f v w i in
      let free : is_unacknowledged a.state p ≡ false =
        ground (arith, find-erase p p e.unacknowledged_fields) in
      (
        two.1,
        two.0,
        free,
        apply_delta_visible layer forwards p f r t a
            (record { stored = i'.stored; pending = i'.pending }) (rw free) kids name known full',
      )
