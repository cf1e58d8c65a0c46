-- ===== src/Data/Samples.antt =====
-- Sources/Resolver/Data.cpp: what SetTimeSample stores, and what it does not record.
use render_studio_kit.Shared.{◌≡◌, true, false, inl, inr, some, ite, arith, Option-cases}
use render_studio_kit.Shared.Dict
use render_studio_kit.Shared.Dict.{find-put}
use render_studio_kit.Usd.{Usd, path_key}
use render_studio_kit.Data.State.{Data, get_field_value, has_spec}
use render_studio_kit.Data.Edit.{write_field_value}
use render_studio_kit.Data.UniqueFields.{IsValid}
use render_studio_kit.Data.Lookup.{get_field_value-set, get_field_value-write_field_value}
use render_studio_kit.Data.TimeSamples.{
  TimeSampleMap, samples_of, samples_or_none, query_time_sample, set_time_sample,
}

module _ ⦃usd : Usd⦄ where
  open usd use {SdfPath, Value, Time, time_key, held_samples, of_samples, is_empty, time_samples}

  -- VtValue gives back the map that it was made of, and such a value is not empty.
  pub record HoldsSamples : Type 0 where
    pub holds : (m : TimeSampleMap) → held_samples (of_samples m) ≡ some m
    pub not_empty : (m : TimeSampleMap) → is_empty (of_samples m) ≡ false

  -- The field after the call
  set_time_sample-field :
      (d : Data) (p : SdfPath) (time : Time) (v : Value)
      → HoldsSamples
      → IsValid d
      → has_spec d p ≡ true
      → is_empty v ≡ false
      → get_field_value (set_time_sample d p time v) p time_samples
        ≡ some (
            of_samples (
              Dict.put ⦃key = time_key⦄ time v
                (samples_or_none (get_field_value d p time_samples))))
  unfolding set_time_sample
  set_time_sample-field d p time v h valid spec some_value =
      let m =
        Dict.put ⦃key = time_key⦄ time v (samples_or_none (get_field_value d p time_samples)) in
      ground (
        arith,
        h.not_empty m,
        get_field_value-set d p p time_samples time_samples (of_samples m) valid,
        get_field_value-write_field_value d p p time_samples time_samples (of_samples m),
      )

  -- What QueryTimeSample answers after SetTimeSample of a value under a path that has a spec: the
  -- value at its time, and at every other time what it answered before.
  query_time_sample-set :
      (d : Data) (p : SdfPath) (time t : Time) (v : Value)
      → HoldsSamples
      → IsValid d
      → has_spec d p ≡ true
      → is_empty v ≡ false
      → query_time_sample (set_time_sample d p time v) p t
        ≡ ite (time_key.eq time t) (some v) (query_time_sample d p t)
  unfolding query_time_sample Dict.find
  query_time_sample-set d p time t v h valid spec some_value =
      let field = get_field_value d p time_samples in
      let m = samples_or_none field in
      elim (Option-cases (samples_of field)) [
        | inl e ↦ ground (
          arith,
          set_time_sample-field d p time v h valid spec some_value,
          h.holds (Dict.put ⦃key = time_key⦄ time v m),
          find-put ⦃key = time_key⦄ t time v m,
        )
        | inr (m', e) ↦ ground (
          arith,
          set_time_sample-field d p time v h valid spec some_value,
          h.holds (Dict.put ⦃key = time_key⦄ time v m),
          find-put ⦃key = time_key⦄ t time v m,
        )
      ]

  -- SetTimeSample of a value, where the path already has a field of time samples: the sample is
  -- stored and found, but nothing waits to be sent to other users that did not wait before, and no
  -- further path becomes unacknowledged.
  set_time_sample_unrecorded :
      (d : Data) (p : SdfPath) (time : Time) (v w : Value)
      → HoldsSamples
      → IsValid d
      → has_spec d p ≡ true
      → is_empty v ≡ false
      → get_field_value d p time_samples ≡ some w
      → let d' = set_time_sample d p time v in
        (query_time_sample d' p time ≡ some v)
        × (d'.local_deltas ≡ d.local_deltas)
        × (d'.unacknowledged_fields ≡ d.unacknowledged_fields)
  unfolding set_time_sample write_field_value
  set_time_sample_unrecorded d p time v w h valid spec some_value old =
      let q = query_time_sample-set d p time time v h valid spec some_value in
      (ground (arith, q), ground arith, ground arith)
