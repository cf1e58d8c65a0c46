-- ===== src/Data/Reachable.antt =====
-- Sources/Resolver/Data.cpp: the invariant of the field vectors over any use of the data.
use render_studio_kit.Shared.{ℕ, zero, suc, inl, inr, [], ◌∷◌, arith, length, Option-cases}
use render_studio_kit.Shared.Dict
use render_studio_kit.Usd.{Usd, path_key}
use render_studio_kit.Data.State.{
  Fields, HashTable, Data, init, on_loaded, create_spec, erase_spec, move_spec, get_field_value,
}
use render_studio_kit.Data.Edit.{set_const, set, erase, fetch_local_deltas, write_field_value}
use render_studio_kit.Data.UniqueFields.{
  IsValid, create_spec-IsValid, erase_spec-IsValid, move_spec-IsValid, set_const-IsValid,
  set-IsValid, erase-IsValid, write_field_value-IsValid,
}
use render_studio_kit.Data.TimeSamples.{
  TimeSampleMap, samples_of, samples_or_none, erase_time_sample, set_time_sample,
}
use render_studio_kit.Data.Layer.{Layer, Forwards}
use render_studio_kit.Data.Apply.{
  Progress, ensure_spec, announce_owner, after_update, new_value, store_field, update_field,
  apply_delta,
}
use render_studio_kit.Data.Process.{
  accumulate_remote_update, apply_fields, apply_spec, apply_deltas, next_sequence, commit, drain,
  begin_processing, end_processing, drain_queue, process_remote_updates,
}
use render_studio_kit.Data.Delivery.{queued}

module _ ⦃usd : Usd⦄ (layer : Layer) (forwards : Forwards layer) where
  open usd use {SdfPath, Token, Value, SpecType, Time, time_key, of_samples, time_samples}

  abbrev Keeps : Progress → Progress → Type 0
  Keeps a b = IsValid a.state → IsValid b.state

  ensure_spec-IsValid :
      (p : SdfPath) (t : SpecType) (st : Progress) → Keeps st (ensure_spec layer p t st)
  unfolding ensure_spec
  ensure_spec-IsValid p t st i =
      ground (arith, forwards.creates_spec st.state p t, create_spec-IsValid st.state p t i)

  announce_owner-IsValid :
      (p : SdfPath) (key : Token) (v : Value) (st : Progress) → Keeps st (announce_owner p key v st)
  unfolding announce_owner
  announce_owner-IsValid p key v st i = ground arith

  after_update-IsValid :
      (p : SdfPath) (key : Token) (v : Value) (st : Progress) → Keeps st (after_update p key v st)
  unfolding after_update
  after_update-IsValid p key v st i = ground (arith, erase_spec-IsValid st.state p i)

  store_field-IsValid :
      (p : SdfPath) (key : Token) (v : Value) (st : Progress)
      → Keeps st (store_field layer p key v st)
  unfolding store_field
  store_field-IsValid p key v st i =
      let w = new_value layer p key v st in
      ground (arith, forwards.sets_field st.state p key w, set-IsValid st.state p key w i)

  update_field-IsValid :
      (p : SdfPath) (key : Token) (v : Value) (st : Progress)
      → Keeps st (update_field layer p key v st)
  unfolding update_field
  update_field-IsValid p key v st i = ground (
    arith,
    after_update-IsValid p key v (store_field layer p key v st) (store_field-IsValid p key v st i),
  )

  apply_delta-IsValid :
      (p : SdfPath) (key : Token) (v : Value) (t : SpecType) (st : Progress)
      → Keeps st (apply_delta layer p key v t st)
  unfolding apply_delta
  apply_delta-IsValid p key v t st i =
      let made = ensure_spec layer p t st in
      let told = announce_owner p key v made in
      update_field-IsValid p key v told
        (announce_owner-IsValid p key v made (ensure_spec-IsValid p t st i))

  apply_fields-IsValid :
      (p : SdfPath) (t : SpecType) (fields : Fields) (st : Progress)
      → Keeps st (apply_fields layer p t fields st)
  unfolding apply_fields
  apply_fields-IsValid p t [] st i = i
  apply_fields-IsValid p t ((key, v) ∷ fields) st i =
      apply_fields-IsValid p t fields (apply_delta layer p key v t st)
        (apply_delta-IsValid p key v t st i)

  apply_deltas-IsValid :
      (deltas : HashTable) (st : Progress) → Keeps st (apply_deltas layer deltas st)
  unfolding apply_deltas apply_spec
  apply_deltas-IsValid [] st i = i
  apply_deltas-IsValid ((p, delta) ∷ deltas) st i =
      apply_deltas-IsValid deltas (apply_spec layer p delta st)
        (ground (arith, apply_fields-IsValid p delta.spec_type delta.fields st i))

  drain-IsValid : (fuel next : ℕ) (st : Progress) → Keeps st (drain layer fuel next st)
  unfolding drain commit
  drain-IsValid zero next st i = i
  drain-IsValid (suc fuel) next st i =
      elim (Option-cases (queued next st.state.remote_deltas_queue)) [
        | inl e ↦ rw (e, drain) i
        | inr (deltas, e) ↦
            let v = apply_deltas-IsValid deltas st i in
            rw (e, drain)
              (drain-IsValid fuel (next_sequence next) (commit next (apply_deltas layer deltas st))
                (record { stored = v.stored; pending = v.pending }))
      ]

  process_remote_updates-IsValid :
      (d : Data) → IsValid d → IsValid (process_remote_updates layer d).0
  unfolding process_remote_updates drain_queue begin_processing end_processing
  process_remote_updates-IsValid d i =
      let st = begin_processing d in
      let v =
        drain-IsValid (length d.remote_deltas_queue) (next_sequence d.latest_applied_sequence) st
          (record { stored = i.stored; pending = i.pending }) in
      record { stored = v.stored; pending = v.pending }

  without_sample-IsValid :
      (d : Data) (p : SdfPath) (m : TimeSampleMap)
      → IsValid d
      → IsValid (elim m [
        | [] ↦ erase d p time_samples
        | e ∷ m' ↦ write_field_value d p time_samples (of_samples (e ∷ m'))
      ])
  without_sample-IsValid d p [] i = erase-IsValid d p time_samples i
  without_sample-IsValid d p (e ∷ m') i =
      write_field_value-IsValid d p time_samples (of_samples (e ∷ m')) i

  erase_time_sample-IsValid :
      (d : Data) (p : SdfPath) (time : Time) → IsValid d → IsValid (erase_time_sample d p time)
  unfolding erase_time_sample
  erase_time_sample-IsValid d p time i =
      elim (Option-cases (samples_of (get_field_value d p time_samples))) [
        | inl e ↦ rw (e, erase_time_sample) i
        | inr (m, e) ↦
            rw (e, erase_time_sample)
              (without_sample-IsValid d p (Dict.erase ⦃key = time_key⦄ time m) i)
      ]

  set_time_sample-IsValid :
      (d : Data) (p : SdfPath) (time : Time) (v : Value)
      → IsValid d
      → IsValid (set_time_sample d p time v)
  unfolding set_time_sample
  set_time_sample-IsValid d p time v i =
      let field = get_field_value d p time_samples in
      let samples = of_samples (Dict.put ⦃key = time_key⦄ time v (samples_or_none field)) in
      ground (
        arith,
        erase_time_sample-IsValid d p time i,
        write_field_value-IsValid d p time_samples samples i,
        set-IsValid d p time_samples samples i,
      )

  -- What can be done to the data, in any order
  pub data Used : Data → Type 0 where
    created : Used init
    loads : {d : Data} → Used d → Used (on_loaded d)
    creates : {d : Data} (p : SdfPath) (t : SpecType) → Used d → Used (create_spec d p t)
    erases_spec : {d : Data} (p : SdfPath) → Used d → Used (erase_spec d p)
    moves : {d : Data} (p q : SdfPath) → Used d → Used (move_spec d p q)
    sets : {d : Data} (p : SdfPath) (f : Token) (v : Value) → Used d → Used (set d p f v)
    sets_const :
        {d : Data} (p : SdfPath) (f : Token) (v : Value) → Used d → Used (set_const d p f v)
    erases : {d : Data} (p : SdfPath) (f : Token) → Used d → Used (erase d p f)
    sets_sample :
        {d : Data} (p : SdfPath) (time : Time) (v : Value)
        → Used d
        → Used (set_time_sample d p time v)
    erases_sample :
        {d : Data} (p : SdfPath) (time : Time) → Used d → Used (erase_time_sample d p time)
    fetches : {d : Data} → Used d → Used (fetch_local_deltas d).0
    receives :
        {d : Data} (deltas : HashTable) (n : ℕ)
        → Used d
        → Used (accumulate_remote_update d deltas n)
    processes : {d : Data} → Used d → Used (process_remote_updates layer d).0

  -- Whatever is done to the data, with a layer that passes its calls on to the data, no spec ever has
  -- two fields of one name, neither in the table nor among the edits that wait to be sent.
  pub Used-IsValid : {d : Data} → Used d → IsValid d
  unfolding on_loaded fetch_local_deltas accumulate_remote_update
  Used-IsValid created = record { stored = tt; pending = tt }
  Used-IsValid (loads r) = record { stored = (Used-IsValid r).stored; pending = tt }
  Used-IsValid (creates p t r) = create_spec-IsValid _ p t (Used-IsValid r)
  Used-IsValid (erases_spec p r) = erase_spec-IsValid _ p (Used-IsValid r)
  Used-IsValid (moves p q r) = move_spec-IsValid _ p q (Used-IsValid r)
  Used-IsValid (sets p f v r) = set-IsValid _ p f v (Used-IsValid r)
  Used-IsValid (sets_const p f v r) = set_const-IsValid _ p f v (Used-IsValid r)
  Used-IsValid (erases p f r) = erase-IsValid _ p f (Used-IsValid r)
  Used-IsValid (sets_sample p time v r) = set_time_sample-IsValid _ p time v (Used-IsValid r)
  Used-IsValid (erases_sample p time r) = erase_time_sample-IsValid _ p time (Used-IsValid r)
  Used-IsValid (fetches r) = record { stored = (Used-IsValid r).stored; pending = tt }
  Used-IsValid (receives deltas n r) = record {
    stored = (Used-IsValid r).stored;
    pending = (Used-IsValid r).pending;
  }
  Used-IsValid (processes r) = process_remote_updates-IsValid _ (Used-IsValid r)
