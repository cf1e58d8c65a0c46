-- ===== src/Data/LocalDeltas.antt =====
-- Sources/Resolver/Data.cpp: which edits Set records for the other users.
use render_studio_kit.Shared.{
  ◌≡◌, ◌≢◌, ◌∙◌, ◌||◌, not, inl, inr, Bool, true, false, Option, none, some, ite, arith, is_some,
  Option-cases, if◌then◌else◌,
}
use render_studio_kit.Shared.Dict
use render_studio_kit.Shared.Dict.{find-put}
use render_studio_kit.Usd.{Usd, path_key}
use render_studio_kit.Data.State.{Data, find_field, has_spec}
use render_studio_kit.Data.Edit.{
  put_field, write_field_value, delta_spec, write_field_value_delta, set_const, set, erase,
}
use render_studio_kit.Data.UniqueFields.{find_field-put_field}

module _ ⦃usd : Usd⦄ where
  open usd use {SdfPath, Token, Value, is_empty, token_eq, path_key as paths}

  -- What waits to be sent for a field
  abbrev pub pending_value : Data → SdfPath → Token → Option Value
  pending_value d p f = elim (Dict.find p d.local_deltas) [
    | none ↦ none
    | some s ↦ find_field f s.fields
  ]

  -- The path is in mUnacknowledgedFields.
  abbrev pub is_unacknowledged : Data → SdfPath → Bool
  is_unacknowledged d p = is_some (Dict.find p d.unacknowledged_fields)

  delta_spec-fields :
      (d : Data) (p : SdfPath) (f : Token)
      → has_spec d p ≡ true
      → (elim (delta_spec d p) [ none ↦ none | some s ↦ find_field f s.fields ])
        ≡ pending_value d p f
  unfolding delta_spec find_field has_spec
  delta_spec-fields d p f h = ground arith

  delta_spec-ne-none : (d : Data) (p : SdfPath) → has_spec d p ≡ true → delta_spec d p ≢ none
  unfolding delta_spec has_spec
  delta_spec-ne-none d p h = ground arith

  pending_value-write_field_value_delta :
      (d : Data) (p q : SdfPath) (f g : Token) (v : Value)
      → has_spec d p ≡ true
      → pending_value (write_field_value_delta d p f v) q g
        ≡ ite
            (paths.eq p q)
            (ite (token_eq f g) (some v) (pending_value d q g))
            (pending_value d q g)
  unfolding write_field_value_delta
  pending_value-write_field_value_delta d p q f g v h = elim (Option-cases (delta_spec d p)) [
    | inl e ↦ absurd (delta_spec-ne-none d p h e)
    | inr (s, e) ↦ ground (
      arith,
      delta_spec-fields d p g h,
      find-put q p (record s { fields = put_field f v s.fields }) d.local_deltas,
      find_field-put_field f g v s.fields,
    )
  ]

  is_unacknowledged-write_field_value_delta :
      (d : Data) (p q : SdfPath) (f : Token) (v : Value)
      → has_spec d p ≡ true
      → is_unacknowledged (write_field_value_delta d p f v) q ≡ (
          if is_some (pending_value d p f)
          then is_unacknowledged d q
          else ite (paths.eq p q) true (is_unacknowledged d q))
  unfolding write_field_value_delta
  is_unacknowledged-write_field_value_delta d p q f v h = elim (Option-cases (delta_spec d p)) [
    | inl e ↦ absurd (delta_spec-ne-none d p h e)
    | inr (s, e) ↦
        ground (arith, delta_spec-fields d p f h, find-put q p tt d.unacknowledged_fields)
  ]

  -- The write to the table touches nothing else.
  pub write_field_value_rest :
      (d : Data) (p : SdfPath) (f : Token) (v : Value)
      → let e = write_field_value d p f v in
        (e.local_deltas ≡ d.local_deltas)
        × (e.unacknowledged_fields ≡ d.unacknowledged_fields)
        × (e.is_loaded ≡ d.is_loaded)
        × (e.is_processing_remote_updates ≡ d.is_processing_remote_updates)
        × (e.latest_applied_sequence ≡ d.latest_applied_sequence)
        × (e.remote_deltas_queue ≡ d.remote_deltas_queue)
  unfolding write_field_value
  write_field_value_rest d p f v = ground arith

  has_spec-write_field_value :
      (d : Data) (p q : SdfPath) (f : Token) (v : Value)
      → has_spec (write_field_value d p f v) q ≡ has_spec d q
  unfolding write_field_value has_spec
  has_spec-write_field_value d p q f v = elim (Option-cases (Dict.find p d.table)) [
    | inl e ↦ ground arith
    | inr (s, e) ↦
        ground (arith, find-put q p (record s { fields = put_field f v s.fields }) d.table)
  ]

  -- An edit by the user with a value that is not empty, of a spec that exists, after loading and
  -- outside the handling of remote updates, waits to be sent under its path and field, and what waits
  -- elsewhere is as before. It makes its path unacknowledged if no edit of the path and field was
  -- waiting, and changes no mark otherwise; the marks of other paths are as before.
  pub set_recorded :
      (d : Data) (p q : SdfPath) (f g : Token) (v : Value)
      → d.is_loaded ≡ true
      → d.is_processing_remote_updates ≡ false
      → is_empty v ≡ false
      → has_spec d p ≡ true
      → (pending_value (set d p f v) q g
          ≡ ite
              (paths.eq p q)
              (ite (token_eq f g) (some v) (pending_value d q g))
              (pending_value d q g))
        × (is_unacknowledged (set d p f v) q ≡ (
            if is_some (pending_value d p f)
            then is_unacknowledged d q
            else ite (paths.eq p q) true (is_unacknowledged d q)))
  unfolding set set_const
  set_recorded d p q f g v loaded idle full spec =
      let e = write_field_value d p f v in
      let there : has_spec e p ≡ true = has_spec-write_field_value d p p f v ∙ spec in
      ground (
        arith,
        write_field_value_rest d p f v,
        pending_value-write_field_value_delta e p q f g v there,
        is_unacknowledged-write_field_value_delta e p q f v there,
      )

  pub set-flags :
      (d : Data) (p : SdfPath) (f : Token) (v : Value)
      → ((set d p f v).is_loaded ≡ d.is_loaded)
        × ((set d p f v).is_processing_remote_updates ≡ d.is_processing_remote_updates)
  unfolding set set_const erase write_field_value write_field_value_delta
  set-flags d p f v = ground arith

  -- Nothing is recorded while a layer loads, while remote updates are applied, or when a field is
  -- erased by an empty value.
  set_unrecorded :
      (d : Data) (p : SdfPath) (f : Token) (v : Value)
      → (is_empty v || (d.is_processing_remote_updates || not d.is_loaded)) ≡ true
      → ((set d p f v).local_deltas ≡ d.local_deltas)
        × ((set d p f v).unacknowledged_fields ≡ d.unacknowledged_fields)
  unfolding set set_const erase
  set_unrecorded d p f v h = ground (arith, write_field_value_rest d p f v)
