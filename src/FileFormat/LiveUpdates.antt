-- ===== src/FileFormat/LiveUpdates.antt =====
-- Sources/Resolver/FileFormat.cpp: ProcessLiveUpdates. `none` is an end by an exception or by a null
-- pointer: `delta.sequence.value()` without a number, or mWebsocketClient used without a client.
use render_studio_kit.Shared.{
  not, ◌||◌, String, Bool, true, false, List, [], ◌∷◌, ◌++◌, Option, none, some, ite, is_nil,
  if◌then◌else◌, string_key, ℕ_discrete,
}
use render_studio_kit.Shared.Dict
use render_studio_kit.Usd.{Usd, path_key}
use render_studio_kit.Notice.{PrimitiveChanged}
use render_studio_kit.Data.State.{HashTable, Data}
use render_studio_kit.Data.Edit.{fetch_local_deltas}
use render_studio_kit.Data.Layer.{Layer}
use render_studio_kit.Data.Process.{accumulate_remote_update, process_remote_updates}
use render_studio_kit.Serialization.Api.{DeltaEvent, AcknowledgeEvent, Codec, delta_event}
use render_studio_kit.Serialization.Api as Api
use render_studio_kit.FileFormat.Registry.{LayerHandle, for_each_layer}
use render_studio_kit.FileFormat.Events.{FileFormat, pending}
use render_studio_kit.FileFormat.Loading.{Storage, reload_layers}

module _ ⦃usd : Usd⦄ where
  open usd use {SdfPath, unknown}

  -- body.updates[key] = SpecData { value.specType, value.fields }
  unfoldable pub to_updates : HashTable → List (SdfPath × Api.SpecData)
  to_updates [] = []
  to_updates ((p, s) ∷ m) =
      Dict.put p (record { spec_type = s.spec_type; fields = s.fields }) (to_updates m)

  -- The copy of the updates of a delta in the internal format
  unfoldable pub of_updates : List (SdfPath × Api.SpecData) → HashTable
  of_updates [] = []
  of_updates ((p, s) ∷ m) =
      Dict.put p (record { spec_type = s.spec_type; fields = s.fields }) (of_updates m)

  -- updates[path] = _SpecData {}
  unfoldable pub of_paths : List SdfPath → HashTable
  of_paths [] = []
  of_paths (p ∷ ps) = Dict.put p (record { spec_type = unknown; fields = [] }) (of_paths ps)

  unfoldable pub accumulate_acknowledges : List AcknowledgeEvent → Data → Data
  accumulate_acknowledges [] d = d
  accumulate_acknowledges (v ∷ vs) d =
      accumulate_acknowledges vs (accumulate_remote_update d (of_paths v.paths) v.sequence)

  unfoldable pub accumulate_deltas : List DeltaEvent → Data → Option Data
  accumulate_deltas [] d = some d
  accumulate_deltas (v ∷ vs) d = elim v.sequence [
    | none ↦ none
    | some n ↦ accumulate_deltas vs (accumulate_remote_update d (of_updates v.updates) n)
  ]

  -- The local deltas of a layer as an event
  abbrev pub local_event : String → String → HashTable → DeltaEvent
  local_event user id local = record {
    layer = id;
    user = user;
    sequence = none;
    updates = to_updates local;
  }

  -- What a call has done so far
  pub record Round : Type 0 where
    pub updated : Bool
    pub sent : List String
    pub notices : List PrimitiveChanged
    pub owners : List (SdfPath × Option String)

  module _ (codec : Codec) (user : String) (has_client : Bool) where
    -- Send, which needs the client. What value_from throws is caught and logged.
    unfoldable pub send_local : String → HashTable → Round → Option Round
    send_local id local round =
        let event = delta_event (local_event user id local) in
        if is_nil local || not (codec.can_serialize event)
        then some round
        else if has_client
        then some (record round { sent = round.sent ++ codec.serialize event ∷ [] })
        else none

    unfoldable pub process_accumulated : Layer → Data → Round → Data × Round
    process_accumulated layer d round =
        let (d', notices, owners) = process_remote_updates layer d in
        (
          d',
          record {
            updated =
                ite (ℕ_discrete d.latest_applied_sequence d'.latest_applied_sequence) round.updated
                  true;
            sent = round.sent;
            notices = round.notices ++ notices;
            owners = round.owners ++ owners;
          },
        )

    -- The callback of ForEachLayer
    unfoldable pub process_layer :
        Layer
        → List (String × List DeltaEvent)
        → List (String × List AcknowledgeEvent)
        → Round
        → LayerHandle
        → Option (Round × LayerHandle)
    process_layer layer deltas acknowledges round handle =
        let id = handle.identifier in
        let (d, local) = fetch_local_deltas handle.layer_data in
        elim (send_local id local round) [
          | none ↦ none
          | some round' ↦
              elim (accumulate_deltas (pending id deltas)
                (accumulate_acknowledges (pending id acknowledges) d)) [
                  | none ↦ none
                  | some d' ↦
                      let (d'', round'') = process_accumulated layer d' round' in
                      some (round'', record handle { layer_data = d'' })
                ]
        ]

  -- The part that follows the reloads: the state, what was done, and the LayerReloaded notices
  unfoldable pub process_open_layers :
      Codec
      → String
      → Layer
      → List (String × List DeltaEvent)
      → List (String × List AcknowledgeEvent)
      → FileFormat × List String × List String
      → Option (FileFormat × Round × List String)
  process_open_layers codec user layer deltas acknowledges (f, sent, reloaded) =
      let start : Round = record {
        updated = not (is_nil reloaded);
        sent = sent;
        notices = [];
        owners = [];
      } in
      elim (for_each_layer (process_layer codec user f.has_client layer deltas acknowledges) start
        f.layer_registry) [
          | none ↦ none
          | some (round, layers) ↦
              some
                (record f { layer_registry = layers; reload_in_progress = false }, round, reloaded)
        ]

  unfoldable pub process_live_updates :
      Storage → Codec → String → Layer → FileFormat → Option (FileFormat × Round × List String)
  process_live_updates storage codec user layer f =
      let taken : FileFormat = record f {
        accumulated_deltas = [];
        requested_reloads = [];
        accumulated_acknowledges = [];
        reload_in_progress = true;
      } in
      process_open_layers codec user layer f.accumulated_deltas f.accumulated_acknowledges
        (reload_layers storage codec user f.requested_reloads taken)
