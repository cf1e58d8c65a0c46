-- ===== src/Serialization/Events.antt =====
-- Sources/Serialization/Api.cpp: the JSON forms of the events, and ParseEvent of
-- Sources/Resolver/FileFormat.cpp and Sources/Server/Logic.cpp.
use render_studio_kit.Shared.{
  ℕ, String, List, [], ◌∷◌, ◌++◌, Option, none, some, ite, is_some, get_or, string_discrete,
}
use render_studio_kit.Shared.Dict
use render_studio_kit.Shared.Options.{◌>>=◌}
use render_studio_kit.Usd.{Usd, path_key}
use render_studio_kit.Serialization.Api.{
  SpecData, DeltaEvent, AcknowledgeEvent, ReloadEvent, Body, Event, delta, acknowledge, history,
  reload, Codec,
}
use render_studio_kit.Serialization.Json.{
  JsonLibrary, Form, at, extract, extract_optional, array_form,
}
use render_studio_kit.Serialization.Forms.{
  Plain, string_form, path_form, token_form, spec_type_form,
}

-- boost::json::serialize and boost::json::parse, which throws on a text that is no JSON
pub record Printer (json : JsonLibrary) : Type 0 where
  pub print : json.Json → String
  pub parse : String → Option json.Json

module _ ⦃usd : Usd⦄ ⦃json : JsonLibrary⦄ where
  open usd use {SdfPath, Token, Value}
  open json use {Json, of_string, of_array, as_array, of_object, as_object, of_nat, as_nat}

  unfoldable pub nat_form : Form ℕ
  nat_form = record { value_from = λ n. some (of_nat n); value_to = as_nat }

  -- result["sequence"], only if there is one
  unfoldable pub sequence_member : Option ℕ → List (String × Json)
  sequence_member none = []
  sequence_member (some n) = ("sequence", of_nat n) ∷ []

  -- result.updates[path]: the fields are pushed back, and the spec type is set.
  unfoldable pub add_update :
      SdfPath → SpecData → List (SdfPath × SpecData) → List (SdfPath × SpecData)
  add_update path spec updates = elim (Dict.find path updates) [
    | none ↦ Dict.put path spec updates
    | some old ↦ Dict.put path (record spec { fields = old.fields ++ spec.fields }) updates
  ]

  -- The loop over the updates that were read
  unfoldable pub collect :
      List (SdfPath × SpecData) → List (SdfPath × SpecData) → List (SdfPath × SpecData)
  collect [] updates = updates
  collect ((path, spec) ∷ rest) updates = collect rest (add_update path spec updates)

  module _ (plain : Plain) (values : Form Value) where
    -- { "key", "value" }
    unfoldable pub field_form : Form (Token × Value)
    field_form = record {
      value_from = λ f. (do
        key ← (token_form plain).value_from f.0
        value ← values.value_from f.1
        some (of_object (("key", key) ∷ ("value", value) ∷ [])));
      value_to = λ j. (do
        o ← as_object j
        key ← extract (token_form plain) o "key"
        value ← extract values o "value"
        some (key, value));
    }

    unfoldable pub spec_data_form : Form SpecData
    spec_data_form = record {
      value_from = λ v. (do
        spec_type ← (spec_type_form plain).value_from v.spec_type
        fields ← (array_form field_form).value_from v.fields
        some (of_object (("specType", spec_type) ∷ ("fields", fields) ∷ [])));
      value_to = λ j. (do
        o ← as_object j
        spec_type ← extract (spec_type_form plain) o "specType"
        fields ← extract (array_form field_form) o "fields"
        some (record { spec_type = spec_type; fields = fields }));
    }

    -- One update: { "path", "spec", "fields" }
    unfoldable pub update_form : Form (SdfPath × SpecData)
    update_form = record {
      value_from = λ u. (do
        path ← (path_form plain).value_from u.0
        spec ← (spec_type_form plain).value_from u.1.spec_type
        fields ← (array_form field_form).value_from u.1.fields
        some (of_object (("path", path) ∷ ("spec", spec) ∷ ("fields", fields) ∷ [])));
      value_to = λ j. (do
        o ← as_object j
        path ← extract (path_form plain) o "path"
        fields ← extract (array_form field_form) o "fields"
        spec ← extract (spec_type_form plain) o "spec"
        some (path, record { spec_type = spec; fields = fields }));
    }

    unfoldable pub delta_form : Form DeltaEvent
    delta_form = record {
      value_from = λ v. (do
        updates ← (array_form update_form).value_from v.updates
        some (
            of_object (
              ("layer", of_string v.layer)
              ∷ ("user", of_string v.user)
              ∷ (sequence_member v.sequence ++ ("updates", updates) ∷ []))));
      value_to = λ j. (do
        o ← as_object j
        layer ← extract string_form o "layer"
        user ← extract string_form o "user"
        sequence ← extract_optional nat_form o "sequence"
        updates ← extract (array_form update_form) o "updates"
        some (record {
          layer = layer;
          user = user;
          sequence = sequence;
          updates = collect updates [];
        }));
    }

    unfoldable pub acknowledge_form : Form AcknowledgeEvent
    acknowledge_form = record {
      value_from = λ v. (do
        paths ← (array_form (path_form plain)).value_from v.paths
        some (
            of_object (
              ("layer", of_string v.layer)
              ∷ ("paths", paths)
              ∷ ("sequence", of_nat v.sequence)
              ∷ [])));
      value_to = λ j. (do
        o ← as_object j
        layer ← extract string_form o "layer"
        paths ← extract (array_form (path_form plain)) o "paths"
        sequence ← extract nat_form o "sequence"
        some (record { layer = layer; paths = paths; sequence = sequence }));
    }

    unfoldable pub reload_form : Form ReloadEvent
    reload_form = record {
      value_from = λ v. some (
          of_object (
            ("layer", of_string v.layer)
            ∷ ("user", of_string v.user)
            ∷ sequence_member v.sequence));
      value_to = λ j. (do
        o ← as_object j
        layer ← extract string_form o "layer"
        user ← extract string_form o "user"
        sequence ← extract_optional nat_form o "sequence"
        some (record { layer = layer; user = user; sequence = sequence }));
    }

    -- The body as the event's name demands it: std::get throws on another one.
    unfoldable pub body_to_json : String → Body → Option Json
    body_to_json name (delta v) =
        ite (string_discrete name "Delta::Event") (delta_form.value_from v) none
    body_to_json name (acknowledge v) =
        ite (string_discrete name "Acknowledge::Event") (acknowledge_form.value_from v) none
    body_to_json name history =
        ite (string_discrete name "History::Event") (some (of_object [])) none
    body_to_json name (reload v) =
        ite (string_discrete name "Reload::Event") (reload_form.value_from v) none

    -- The comparisons of the name that was read
    unfoldable pub json_to_body : String → Option Json → Option Body
    json_to_body name body =
        ite (string_discrete name "Delta::Event")
          (do j ← body; v ← delta_form.value_to j; some (delta v))
          (ite (string_discrete name "Acknowledge::Event")
            (do j ← body; v ← acknowledge_form.value_to j; some (acknowledge v))
            (ite (string_discrete name "History::Event") (do j ← body; some history)
              (ite (string_discrete name "Reload::Event")
                (do j ← body; v ← reload_form.value_to j; some (reload v)) none)))

    unfoldable pub event_form : Form Event
    event_form = record {
      value_from = λ e. (do
        body ← body_to_json e.event e.body
        some (of_object (("event", of_string e.event) ∷ ("body", body) ∷ [])));
      value_to = λ j. (do
        o ← as_object j
        name ← extract string_form o "event"
        body ← json_to_body name (at o "body")
        some (record { event = name; body = body }));
    }

    -- serialize(value_from(event)), and ParseEvent, which catches what is thrown
    module _ (printer : Printer json) where
      unfoldable pub print_event : Event → Option String
      print_event e = do j ← event_form.value_from e; some (printer.print j)

      unfoldable pub parse_event : String → Option Event
      parse_event text = do j ← printer.parse text; event_form.value_to j

      -- The same as the other parts see it
      abbrev pub json_codec : Codec
      json_codec = record {
        serialize = λ e. get_or "" (print_event e);
        can_serialize = λ e. is_some (print_event e);
        parse_event = parse_event;
      }
