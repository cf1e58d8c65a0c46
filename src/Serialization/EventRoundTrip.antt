-- ===== src/Serialization/EventRoundTrip.antt =====
-- Sources/Serialization/Api.cpp: the event that is read is the event that was written.
use render_studio_kit.Shared.{
  String, true, ◌≡◌, ◌≢◌, List, [], ◌∷◌, ◌++◌, some, inl, inr, Option-cases, arith, string_discrete,
  string_key,
}
use text.Mathlib.TextEquality.{eq_iff}
use render_studio_kit.Shared.Dict
use render_studio_kit.Shared.Sorted.{IsOrdered, Sorted}
use render_studio_kit.Shared.Options.{>>=-eq-some}
use render_studio_kit.Usd.{Usd, path_key}
use render_studio_kit.Serialization.Api.{
  SpecData, DeltaEvent, AcknowledgeEvent, ReloadEvent, Body, Event, delta, acknowledge, history,
  reload,
}
use render_studio_kit.Serialization.Json.{
  JsonLibrary, Reads, Form, Keeps, extract, extract_optional, array_form,
}
use render_studio_kit.Serialization.Forms.{
  Plain, IsPlain, string_form, path_form, token_form, spec_type_form,
}
use render_studio_kit.Serialization.Faithful.{
  AllKeep, array_form-Keeps, array_form-IsFaithful, path_form-IsFaithful, token_form-IsFaithful,
  spec_type_form-IsFaithful,
}
use render_studio_kit.Serialization.Events.{
  Printer, nat_form, sequence_member, field_form, spec_data_form, update_form, delta_form,
  acknowledge_form, reload_form, body_to_json, json_to_body, event_form, print_event, parse_event,
  json_codec,
}
use render_studio_kit.Serialization.Collecting.{collect-same}

-- The names of the events differ.
abbrev Differ : String → String → Type 0
Differ s t = s ≢ t

delta_not_acknowledge : Differ "Delta::Event" "Acknowledge::Event"
delta_not_acknowledge = ground (arith, eq_iff "Delta::Event" "Acknowledge::Event")

delta_not_history : Differ "Delta::Event" "History::Event"
delta_not_history = ground (arith, eq_iff "Delta::Event" "History::Event")

delta_not_reload : Differ "Delta::Event" "Reload::Event"
delta_not_reload = ground (arith, eq_iff "Delta::Event" "Reload::Event")

acknowledge_not_history : Differ "Acknowledge::Event" "History::Event"
acknowledge_not_history = ground (arith, eq_iff "Acknowledge::Event" "History::Event")

acknowledge_not_reload : Differ "Acknowledge::Event" "Reload::Event"
acknowledge_not_reload = ground (arith, eq_iff "Acknowledge::Event" "Reload::Event")

history_not_reload : Differ "History::Event" "Reload::Event"
history_not_reload = ground (arith, eq_iff "History::Event" "Reload::Event")

module _ ⦃usd : Usd⦄ ⦃json : JsonLibrary⦄ (lib : Reads json) (plain : Plain) (laws : IsPlain plain)
    (values : Form usd.Value) where
  open usd use {SdfPath, Token, Value}
  open json use {Json, of_string, of_object, of_nat}

  -- Every value among the fields is read back.
  abbrev pub FieldsKeep : List (Token × Value) → Type 0
  FieldsKeep [] = Unit {0}
  FieldsKeep ((key, value) ∷ fields) = Keeps values value × FieldsKeep fields

  abbrev pub UpdatesKeep : List (SdfPath × SpecData) → Type 0
  UpdatesKeep [] = Unit {0}
  UpdatesKeep ((path, spec) ∷ updates) = FieldsKeep spec.fields × UpdatesKeep updates

  field_form-Keeps :
      (key : Token) (value : Value)
      → Keeps values value
      → Keeps (field_form plain values) (key, value)
  unfolding field_form extract Dict.find string_discrete
  field_form-Keeps key value h j e =
      let tokens = token_form plain in
      let (j0, e0, r0) = >>=-eq-some (tokens.value_from key) _ e in
      let (j1, e1, r1) = >>=-eq-some (values.value_from value) _ r0 in
      ground (
        arith,
        lib.reads_object (("key", j0) ∷ ("value", j1) ∷ []),
        token_form-IsFaithful lib plain laws key j0 e0,
        h j1 e1,
      )

  FieldsKeep-AllKeep :
      (fields : List (Token × Value))
      → FieldsKeep fields
      → AllKeep lib (field_form plain values) fields
  FieldsKeep-AllKeep [] h = tt
  FieldsKeep-AllKeep ((key, value) ∷ fields) h =
      (field_form-Keeps key value h.0, FieldsKeep-AllKeep fields h.1)

  fields-Keep :
      (fields : List (Token × Value))
      → FieldsKeep fields
      → Keeps (array_form (field_form plain values)) fields
  fields-Keep fields h =
      array_form-Keeps lib (field_form plain values) fields (FieldsKeep-AllKeep fields h)

  -- A spec by itself
  pub spec_data_form-Keeps :
      (spec : SpecData) → FieldsKeep spec.fields → Keeps (spec_data_form plain values) spec
  unfolding spec_data_form extract Dict.find string_discrete
  spec_data_form-Keeps spec h j e =
      let types = spec_type_form plain in
      let fields = array_form (field_form plain values) in
      let (j0, e0, r0) = >>=-eq-some (types.value_from spec.spec_type) _ e in
      let (j1, e1, r1) = >>=-eq-some (fields.value_from spec.fields) _ r0 in
      ground (
        arith,
        lib.reads_object (("specType", j0) ∷ ("fields", j1) ∷ []),
        spec_type_form-IsFaithful lib plain laws spec.spec_type j0 e0,
        fields-Keep spec.fields h j1 e1,
      )

  update_form-Keeps :
      (path : SdfPath) (spec : SpecData)
      → FieldsKeep spec.fields
      → Keeps (update_form plain values) (path, spec)
  unfolding update_form extract Dict.find string_discrete
  update_form-Keeps path spec h j e =
      let paths = path_form plain in
      let types = spec_type_form plain in
      let fields = array_form (field_form plain values) in
      let (j0, e0, r0) = >>=-eq-some (paths.value_from path) _ e in
      let (j1, e1, r1) = >>=-eq-some (types.value_from spec.spec_type) _ r0 in
      let (j2, e2, r2) = >>=-eq-some (fields.value_from spec.fields) _ r1 in
      ground (
        arith,
        lib.reads_object (("path", j0) ∷ ("spec", j1) ∷ ("fields", j2) ∷ []),
        path_form-IsFaithful lib plain laws path j0 e0,
        spec_type_form-IsFaithful lib plain laws spec.spec_type j1 e1,
        fields-Keep spec.fields h j2 e2,
      )

  UpdatesKeep-AllKeep :
      (updates : List (SdfPath × SpecData))
      → UpdatesKeep updates
      → AllKeep lib (update_form plain values) updates
  UpdatesKeep-AllKeep [] h = tt
  UpdatesKeep-AllKeep ((path, spec) ∷ updates) h =
      (update_form-Keeps path spec h.0, UpdatesKeep-AllKeep updates h.1)

  -- Updates that come in the order of their paths are collected as they come.
  module _ (ordered : IsOrdered usd.path_key) where
    delta_form-Keeps :
        (v : DeltaEvent)
        → Sorted ⦃key = usd.path_key⦄ v.updates
        → UpdatesKeep v.updates
        → Keeps (delta_form plain values) v
    unfolding delta_form sequence_member extract extract_optional string_form nat_form Dict.find
        string_discrete
    delta_form-Keeps v s h j e =
        let updates = array_form (update_form plain values) in
        let (j0, e0, whole) = >>=-eq-some (updates.value_from v.updates) _ e in
        let back =
          array_form-Keeps lib (update_form plain values) v.updates
            (UpdatesKeep-AllKeep v.updates h) j0 e0 in
        let collected = collect-same ordered v.updates s in
        let members =
          ("layer", of_string v.layer)
          ∷ ("user", of_string v.user)
          ∷ (sequence_member v.sequence ++ ("updates", j0) ∷ []) in
        elim (Option-cases v.sequence) [
          | inl no_number ↦ ground (
            arith,
            lib.reads_object members,
            lib.reads_string v.layer,
            lib.reads_string v.user,
            back,
            collected,
          )
          | inr (n, number) ↦ ground (
            arith,
            lib.reads_object members,
            lib.reads_string v.layer,
            lib.reads_string v.user,
            lib.reads_nat n,
            back,
            collected,
          )
        ]

    acknowledge_form-Keeps : (v : AcknowledgeEvent) → Keeps (acknowledge_form plain values) v
    unfolding acknowledge_form extract string_form nat_form Dict.find string_discrete
    acknowledge_form-Keeps v j e =
        let paths = array_form (path_form plain) in
        let (j0, e0, whole) = >>=-eq-some (paths.value_from v.paths) _ e in
        ground (
          arith,
          lib.reads_object
              (("layer", of_string v.layer) ∷ ("paths", j0) ∷ ("sequence", of_nat v.sequence) ∷ []),
          lib.reads_string v.layer,
          lib.reads_nat v.sequence,
          array_form-IsFaithful lib (path_form plain) (path_form-IsFaithful lib plain laws) v.paths
              j0 e0,
        )

    reload_form-Keeps : (v : ReloadEvent) → Keeps (reload_form plain values) v
    unfolding reload_form sequence_member extract extract_optional string_form nat_form Dict.find
        string_discrete
    reload_form-Keeps v j e =
        let members =
          ("layer", of_string v.layer) ∷ ("user", of_string v.user) ∷ sequence_member v.sequence in
        elim (Option-cases v.sequence) [
          | inl no_number ↦
              ground
                (arith, lib.reads_object members, lib.reads_string v.layer, lib.reads_string v.user)
          | inr (n, number) ↦ ground (
            arith,
            lib.reads_object members,
            lib.reads_string v.layer,
            lib.reads_string v.user,
            lib.reads_nat n,
          )
        ]

    -- An edit has its updates in the order of their paths, and values that are read back.
    abbrev pub IsKept : Body → Type 0
    IsKept (delta v) = Sorted ⦃key = usd.path_key⦄ v.updates × UpdatesKeep v.updates
    IsKept _ = Unit {0}

    body-Keeps :
        (name : String) (body : Body) (j : Json)
        → IsKept body
        → body_to_json plain values name body ≡ some j
        → json_to_body plain values name (some j) ≡ some body
    unfolding body_to_json json_to_body
    body-Keeps name (delta v) j h e = ground (arith, delta_form-Keeps v h.0 h.1 j)
    body-Keeps name (acknowledge v) j h e =
        ground (arith, delta_not_acknowledge, acknowledge_form-Keeps v j)
    body-Keeps name history j h e = ground (arith, delta_not_history, acknowledge_not_history)
    body-Keeps name (reload v) j h e =
        ground (
          arith,
          delta_not_reload,
          acknowledge_not_reload,
          history_not_reload,
          reload_form-Keeps v j,
        )

    event_form-Keeps : (v : Event) → IsKept v.body → Keeps (event_form plain values) v
    unfolding event_form extract string_form Dict.find string_discrete
    event_form-Keeps v h j e =
        let (j0, e0, whole) = >>=-eq-some (body_to_json plain values v.event v.body) _ e in
        ground (
          arith,
          lib.reads_object (("event", of_string v.event) ∷ ("body", j0) ∷ []),
          lib.reads_string v.event,
          body-Keeps v.event v.body j0 h e0,
        )

    -- What is printed for the event is parsed again.
    abbrev pub IsPrinted : Printer json → Event → Type 0
    IsPrinted printer v =
        (j : Json)
        → (event_form plain values).value_from v ≡ some j
        → printer.parse (printer.print j) ≡ some j

    parse_event-print_event :
        (printer : Printer json) (v : Event) (text : String)
        → IsPrinted printer v
        → IsKept v.body
        → print_event plain values printer v ≡ some text
        → parse_event plain values printer text ≡ some v
    unfolding print_event parse_event
    parse_event-print_event printer v text prints h e =
        let (j, e0, whole) = >>=-eq-some ((event_form plain values).value_from v) _ e in
        ground (arith, prints j e0, event_form-Keeps v h j e0)

    -- An event on which value_from does not throw, the updates of which come in the order of their
    -- paths and hold values that are read back, is what ParseEvent makes of its text, if the JSON
    -- library can parse what it prints for the event.
    pub json_codec_reads :
        (printer : Printer json) (v : Event)
        → IsPrinted printer v
        → IsKept v.body
        → (json_codec plain values printer).can_serialize v ≡ true
        → (json_codec plain values printer).parse_event
            ((json_codec plain values printer).serialize v)
          ≡ some v
    json_codec_reads printer v prints h can =
        elim (Option-cases (print_event plain values printer v)) [
          | inl e ↦ absurd (ground arith)
          | inr (text, e) ↦ rw e (parse_event-print_event printer v text prints h e)
        ]
