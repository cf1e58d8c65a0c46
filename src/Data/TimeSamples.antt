-- ===== src/Data/TimeSamples.antt =====
-- Sources/Resolver/Data.cpp: the time samples, which are a field like any other.
use render_studio_kit.Shared.{
  ℕ, Bool, true, false, List, [], ◌∷◌, Option, none, some, map, ite, length, is_some, if◌then◌else◌,
}
use render_studio_kit.Shared.Dict
use render_studio_kit.Usd.{Usd, path_key}
use render_studio_kit.Data.State.{HashTable, Data, get, get_field_value}
use render_studio_kit.Data.Edit.{write_field_value, erase, set}

module _ ⦃usd : Usd⦄ where
  open usd use {SdfPath, Value, Time, time_key, held_samples, of_samples, is_empty, time_samples}

  -- SdfTimeSampleMap, and std::set<double>
  abbrev pub TimeSampleMap : Type 0
  TimeSampleMap = List (Time × Value)

  abbrev pub Times : Type 0
  Times = List (Time × Unit {0})

  -- The loop of times.insert
  unfoldable pub insert_times : {V : Type 0} → List (Time × V) → Times → Times
  insert_times [] times = times
  insert_times ((t, v) ∷ m) times = insert_times m (Dict.put ⦃key = time_key⦄ t tt times)

  unfoldable pub list_time_samples_for_path : Data → SdfPath → Times
  list_time_samples_for_path d p = elim (held_samples (get d p time_samples)) [
    | none ↦ []
    | some m ↦ insert_times m []
  ]

  -- The loop over mData
  unfoldable pub list_times : Data → HashTable → Times → Times
  list_times d [] times = times
  list_times d ((p, spec) ∷ m) times =
      list_times d m (insert_times (list_time_samples_for_path d p) times)

  unfoldable pub list_all_time_samples : Data → Times
  list_all_time_samples d = list_times d d.table []

  -- *samples.rbegin()
  unfoldable pub last_time : Time → List Time → Time
  last_time t [] = t
  last_time t (u ∷ ts) = last_time u ts

  -- samples.lower_bound(time), with the sample before it; the caller knows that there is one.
  unfoldable pub bracket : Time → Time → List Time → Option (Time × Time)
  bracket time previous [] = none
  bracket time previous (t ∷ ts) =
      let rest = bracket time t ts in
      if time_key.before t time
      then rest
      else ite (time_key.eq t time) (some (t, t)) (some (previous, t))

  -- _GetBracketingTimeSamplesImpl: the lower and the upper time, if it returns true
  unfoldable pub bracketing_times : List Time → Time → Option (Time × Time)
  bracketing_times [] time = none
  bracketing_times (t ∷ ts) time =
      if time_key.before t time
      then if time_key.before time (last_time t ts)
        then bracket time t ts
        else some (last_time t ts, last_time t ts)
      else some (t, t)

  unfoldable pub get_bracketing_time_samples : Data → Time → Option (Time × Time)
  get_bracketing_time_samples d time =
      bracketing_times (map (λ e. e.0) (list_all_time_samples d)) time

  -- The samples that the field holds
  abbrev pub samples_of : Option Value → Option TimeSampleMap
  samples_of none = none
  samples_of (some v) = held_samples v

  unfoldable pub get_num_time_samples_for_path : Data → SdfPath → ℕ
  get_num_time_samples_for_path d p = elim (samples_of (get_field_value d p time_samples)) [
    | none ↦ 0
    | some m ↦ length m
  ]

  unfoldable pub get_bracketing_time_samples_for_path : Data → SdfPath → Time → Option (Time × Time)
  get_bracketing_time_samples_for_path d p time =
      elim (samples_of (get_field_value d p time_samples)) [
        | none ↦ none
        | some m ↦ bracketing_times (map (λ e. e.0) m) time
      ]

  -- QueryTimeSample with a VtValue: the sample, if it returns true
  unfoldable pub query_time_sample : Data → SdfPath → Time → Option Value
  query_time_sample d p time = elim (samples_of (get_field_value d p time_samples)) [
    | none ↦ none
    | some m ↦ Dict.find ⦃key = time_key⦄ time m
  ]

  -- QueryTimeSample with an SdfAbstractDataValue: `none` is the null pointer.
  unfoldable pub has_time_sample : Data → SdfPath → Time → Option (Value → Bool) → Bool
  has_time_sample d p time value = elim (query_time_sample d p time) [
    | none ↦ false
    | some v ↦ elim value [ none ↦ true | some store_value ↦ store_value v ]
  ]

  unfoldable pub erase_time_sample : Data → SdfPath → Time → Data
  erase_time_sample d p time = elim (samples_of (get_field_value d p time_samples)) [
    | none ↦ d
    | some m ↦ elim (Dict.erase ⦃key = time_key⦄ time m) [
      | [] ↦ erase d p time_samples
      | e ∷ m' ↦ write_field_value d p time_samples (of_samples (e ∷ m'))
    ]
  ]

  -- The samples into which the new one is put
  abbrev pub samples_or_none : Option Value → TimeSampleMap
  samples_or_none field = elim (samples_of field) [ none ↦ [] | some m ↦ m ]

  -- A field that is there is written through its pointer, and only a new one by Set.
  unfoldable pub set_time_sample : Data → SdfPath → Time → Value → Data
  set_time_sample d p time v =
      let field = get_field_value d p time_samples in
      let samples = of_samples (Dict.put ⦃key = time_key⦄ time v (samples_or_none field)) in
      if is_empty v
      then erase_time_sample d p time
      else if is_some field
      then write_field_value d p time_samples samples
      else set d p time_samples samples
