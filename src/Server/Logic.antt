-- ===== src/Server/Logic.antt =====
-- Sources/Server/Logic.cpp: the handlers of the server. Each locks the mutex, so each is one step from
-- a state to a state with the texts sent. The log and DebugPrint are left out.
use render_studio_kit.Shared.{
  ℕ, String, List, [], ◌∷◌, ◌++◌, Option, none, some, map, get_or, if◌then◌else◌, string_key,
}
use render_studio_kit.Shared.Dict
use render_studio_kit.Usd.{Usd}
use render_studio_kit.Serialization.Api.{
  DeltaEvent, AcknowledgeEvent, ReloadEvent, Body, Event, delta, acknowledge, history, reload,
  delta_event, acknowledge_event, history_event, reload_event, Codec,
}
use render_studio_kit.Server.Channel.{
  Connection, Sent, Channel, create, add_connection, remove_connection, send, add_to_history,
  clear_history, empty, get_sequence_number,
}

module _ ⦃usd : Usd⦄ where
  pub record Logic : Type 0 where
    pub channels : List (String × Channel)

  abbrev pub init : Logic
  init = record { channels = [] }

  unfoldable pub on_disconnected : Logic → Connection → Logic
  on_disconnected logic connection = elim (Dict.find connection.channel logic.channels) [
    | none ↦ logic
    | some found ↦
        let channel = remove_connection found connection in
        record {
          channels =
              if empty channel
              then Dict.erase connection.channel logic.channels
              else Dict.put connection.channel channel logic.channels;
        }
  ]

  -- acknowledgedDelta
  abbrev pub numbered : DeltaEvent → ℕ → DeltaEvent
  numbered v sequence = record v { sequence = some sequence }

  module _ (codec : Codec) where
    open codec use {serialize, parse_event}

    -- The deltas of one layer, to one connection
    unfoldable pub replay_deltas : Connection → List DeltaEvent → Sent
    replay_deltas connection [] = []
    replay_deltas connection (v ∷ vs) =
        (connection, serialize (delta_event v)) ∷ replay_deltas connection vs

    -- The loops over the history, by layer
    unfoldable pub replay_history : Connection → List (String × List DeltaEvent) → Sent
    replay_history connection [] = []
    replay_history connection ((layer, deltas) ∷ rest) =
        replay_deltas connection deltas ++ replay_history connection rest

    unfoldable pub on_connected : Logic → Connection → Logic × Sent
    on_connected logic connection =
        let name = connection.channel in
        let channel =
          add_connection (get_or (create name) (Dict.find name logic.channels)) connection in
        (
          record { channels = Dict.put name channel logic.channels },
          replay_history connection channel.history ++ (connection, serialize history_event) ∷ [],
        )

    unfoldable pub on_delta : Logic → Connection → DeltaEvent → Logic × Sent
    on_delta logic connection v = elim (Dict.find connection.channel logic.channels) [
      | none ↦ (logic, [])
      | some channel ↦
          let sequence = get_sequence_number channel v.layer in
          let acknowledged = numbered v sequence in
          let channel' = add_to_history channel acknowledged in
          let ack : AcknowledgeEvent = record {
            layer = v.layer;
            paths = map (λ u. u.0) v.updates;
            sequence = sequence;
          } in
          (
            record { channels = Dict.put connection.channel channel' logic.channels },
            send channel' connection (serialize (delta_event acknowledged))
                ++ (connection, serialize (acknowledge_event ack)) ∷ [],
          )
    ]

    unfoldable pub on_reload : Logic → Connection → ReloadEvent → Logic × Sent
    on_reload logic connection v = elim (Dict.find connection.channel logic.channels) [
      | none ↦ (logic, [])
      | some channel ↦
          let sequence = get_sequence_number channel v.layer in
          let channel' = clear_history channel v.layer in
          (
            record { channels = Dict.put connection.channel channel' logic.channels },
            send channel' connection
                (serialize (reload_event (record v { sequence = some sequence }))),
          )
    ]

    -- std::visit over the body
    unfoldable pub on_body : Logic → Connection → Body → Logic × Sent
    on_body logic connection (delta v) = on_delta logic connection v
    on_body logic connection history = (logic, [])
    on_body logic connection (acknowledge v) = (logic, [])
    on_body logic connection (reload v) = on_reload logic connection v

    -- A text that does not parse is dropped.
    unfoldable pub on_event : Logic → Connection → Option Event → Logic × Sent
    on_event logic connection none = (logic, [])
    on_event logic connection (some e) = on_body logic connection e.body

    unfoldable pub on_message : Logic → Connection → String → Logic × Sent
    on_message logic connection message = on_event logic connection (parse_event message)
