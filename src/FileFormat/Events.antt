-- ===== src/FileFormat/Events.antt =====
-- Sources/Resolver/FileFormat.cpp: the state of the file format and what arriving messages do to it.
use render_studio_kit.Shared.{
  String, Bool, true, false, List, [], ◌∷◌, ◌++◌, Option, none, some, get_or, string_key,
}
use render_studio_kit.Shared.Dict
use render_studio_kit.Usd.{Usd}
use render_studio_kit.Serialization.Api.{
  DeltaEvent, AcknowledgeEvent, ReloadEvent, Body, Event, delta, acknowledge, history, reload,
  Codec,
}
use render_studio_kit.FileFormat.Registry.{Registry, remove_expired_layers}

module _ ⦃usd : Usd⦄ where
  -- class RenderStudioFileFormat; `has_client` tells whether mWebsocketClient is set.
  pub record FileFormat : Type 0 where
    pub layer_registry : Registry
    pub has_client : Bool
    pub accumulated_deltas : List (String × List DeltaEvent)
    pub accumulated_acknowledges : List (String × List AcknowledgeEvent)
    pub requested_reloads : List String
    pub reload_in_progress : Bool

  abbrev pub init : FileFormat
  init = record {
    layer_registry = [];
    has_client = false;
    accumulated_deltas = [];
    accumulated_acknowledges = [];
    requested_reloads = [];
    reload_in_progress = false;
  }

  -- Connect: there is a client afterwards, whether or not the URL can be parsed and reached.
  unfoldable pub connect : FileFormat → FileFormat
  connect f = record f {
    layer_registry = remove_expired_layers f.layer_registry;
    has_client = true;
  }

  unfoldable pub disconnect : FileFormat → FileFormat
  disconnect f = record f { has_client = false }

  -- m[layer]
  abbrev pub pending : {E : Type 0} → String → List (String × List E) → List E
  pending layer m = get_or [] (Dict.find layer m)

  -- m[layer].push_back(v)
  unfoldable pub push_back :
      {E : Type 0} → String → E → List (String × List E) → List (String × List E)
  push_back layer v m = Dict.put layer (pending layer m ++ v ∷ []) m

  unfoldable pub process_delta_event : FileFormat → DeltaEvent → FileFormat
  process_delta_event f v = elim v.sequence [
    | none ↦ f
    | some n ↦ record f { accumulated_deltas = push_back v.layer v f.accumulated_deltas }
  ]

  -- The status notices that ProcessHistoryEvent sends change no state and are left out.
  unfoldable pub process_history_event : FileFormat → FileFormat
  process_history_event f = f

  unfoldable pub process_acknowledge_event : FileFormat → AcknowledgeEvent → FileFormat
  process_acknowledge_event f v = record f {
    accumulated_acknowledges = push_back v.layer v f.accumulated_acknowledges;
  }

  unfoldable pub process_reload_event : FileFormat → ReloadEvent → FileFormat
  process_reload_event f v = elim v.sequence [
    | none ↦ f
    | some n ↦ record f {
      accumulated_deltas = Dict.erase v.layer f.accumulated_deltas;
      accumulated_acknowledges = Dict.erase v.layer f.accumulated_acknowledges;
      requested_reloads = f.requested_reloads ++ v.layer ∷ [];
    }
  ]

  -- std::visit over the body
  unfoldable pub on_body : FileFormat → Body → FileFormat
  on_body f (delta v) = process_delta_event f v
  on_body f history = process_history_event f
  on_body f (acknowledge v) = process_acknowledge_event f v
  on_body f (reload v) = process_reload_event f v

  -- A text that does not parse is dropped.
  unfoldable pub on_event : FileFormat → Option Event → FileFormat
  on_event f none = f
  on_event f (some e) = on_body f e.body

  unfoldable pub on_message : Codec → FileFormat → String → FileFormat
  on_message codec f message = on_event f (codec.parse_event message)

  -- The messages received one after the other
  unfoldable pub receive : Codec → FileFormat → List String → FileFormat
  receive codec f [] = f
  receive codec f (m ∷ ms) = receive codec (on_message codec f m) ms
