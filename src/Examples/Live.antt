-- ===== src/Examples/Live.antt =====
-- The theorems on the file format at concrete inputs.
use render_studio_kit.Shared.{
  ℕ, String, ◌≡◌, refl, true, false, List, [], ◌∷◌, ◌++◌, Option, none, some, arith,
  string_discrete, ite, ℕ_discrete,
}
use render_studio_kit.Data.State.{Data, HashTable}
use render_studio_kit.Data.Layer.{forwarding, forwarding-Forwards}
use render_studio_kit.Data.Process.{begin_processing, end_processing}
use render_studio_kit.Data.Delivery.{run_updates}
use render_studio_kit.Data.Reordering.{accumulate_all}
use render_studio_kit.Data.CatchUp.{numbered_from}
use render_studio_kit.Serialization.Api.{
  DeltaEvent, ReloadEvent, Codec, Body, delta, delta_event, reload_event,
}
use render_studio_kit.Server.Channel.{Connection}
use render_studio_kit.Server.Logic.{replay_deltas}
use render_studio_kit.FileFormat.Registry.{LayerHandle}
use render_studio_kit.FileFormat.Events.{FileFormat, init, receive}
use render_studio_kit.FileFormat.Loading.{Storage, loaded_data, read}
use render_studio_kit.FileFormat.LiveUpdates.{Round, process_layer, process_live_updates}
use render_studio_kit.FileFormat.Receiving.{texts, tables, open_layer}
use render_studio_kit.FileFormat.Reloads.{reload_restarts}
use render_studio_kit.FileFormat.LocalEdits.{sent_of, process_layer_sends}
use render_studio_kit.FileFormat.Unopened.{unopened_layer_stuck}
use render_studio_kit.Examples.World.{number, world, layer_data}

abbrev pub first_edit : DeltaEvent
first_edit = record {
  layer = "scene";
  user = "ann";
  sequence = some 1;
  updates = (1, record { spec_type = 2; fields = (7, number 71) ∷ [] }) ∷ [];
}

abbrev pub second_edit : DeltaEvent
second_edit = record {
  layer = "scene";
  user = "ann";
  sequence = some 2;
  updates = (1, record { spec_type = 2; fields = (7, number 72) ∷ [] }) ∷ [];
}

abbrev reloading : ReloadEvent
reloading = record { layer = "scene"; user = "ann"; sequence = some 3 }

-- An edit is written as its number.
abbrev pub number_text : Option ℕ → String
number_text none = "none"
number_text (some n) = ite (ℕ_discrete n 1) "first" "second"

abbrev event_text : Body → String
event_text (delta v) = number_text v.sequence
event_text _ = "reload"

abbrev codec : Codec
codec = record {
  serialize = λ e. event_text e.body;
  can_serialize = λ e. true;
  parse_event = λ text. ite (string_discrete text "first") (some (delta_event first_edit)) (
      ite (string_discrete text "second") (some (delta_event second_edit))
        (some (reload_event reloading)));
}

-- Every file has the one format, and its contents are the layer of the examples.
abbrev pub storage : Storage
storage = record {
  Format = Unit {0};
  Source = HashTable;
  original_format = λ path. some tt;
  can_read_original = λ format path. true;
  read_original = λ format path. some layer_data.table;
  copy_from = λ d table. record d { table = table };
  reload_path = λ id. some "scene.usda";
  absolute_root_path = 0;
  pseudo_root = 1;
}

abbrev pub bob : Connection
bob = record { session = 3; debug_name = "bob"; channel = "room" }

abbrev pub joined : FileFormat
joined = record init {
  layer_registry = ("scene", open_layer "scene" layer_data) ∷ [];
  has_client = true;
}

abbrev connected : FileFormat
connected = record init { has_client = true }

reload_restarts_example :
    let vs = first_edit ∷ [] in
    let us = numbered_from 0 (tables vs) in
    let d' = accumulate_all (loaded_data storage codec "bob" layer_data.table) us in
    (f' : FileFormat) × (round : Round) × (e : Data) × (process_live_updates storage codec "bob"
        forwarding
        (receive codec joined ("reload" ∷ texts (replay_deltas codec bob vs)))
      ≡ some (f', round, "scene" ∷ []))
    × (f'.layer_registry ≡ ("scene", open_layer "scene" e) ∷ [])
    × (e ≡ end_processing (run_updates forwarding us (begin_processing d')))
    × (e.latest_applied_sequence ≡ 1)
    × (round.sent ≡ [])
unfolding string_discrete ℕ_discrete
reload_restarts_example =
    reload_restarts storage codec "bob" forwarding joined "scene" "scene.usda" layer_data tt
      layer_data.table "reload" reloading 3 bob (first_edit ∷ []) forwarding-Forwards (refl, tt)
      refl refl refl refl refl refl refl refl refl (refl, tt) (refl, tt) (omega arith)

unopened_layer_stuck_example :
    let before = receive codec connected (texts (replay_deltas codec bob (first_edit ∷ []))) in
    (f' : FileFormat) × (round : Round) × (process_live_updates storage codec "bob" forwarding
        before
      ≡ some (f', round, []))
    × (let opened = (read storage codec "bob" f' "scene" "scene.usda").1 in
        let after = receive codec opened (texts (replay_deltas codec bob (second_edit ∷ []))) in
        (f'' : FileFormat) × (round' : Round) × (e : Data) × (process_live_updates storage codec
            "bob" forwarding after
          ≡ some (f'', round', []))
        × (f''.layer_registry ≡ ("scene", open_layer "scene" e) ∷ [])
        × (e.table ≡ (loaded_data storage codec "bob" layer_data.table).table)
        × (e.latest_applied_sequence ≡ 0))
unfolding string_discrete ℕ_discrete
unopened_layer_stuck_example =
    unopened_layer_stuck storage codec "bob" forwarding connected "scene" "scene.usda" tt
      layer_data.table bob (first_edit ∷ []) (second_edit ∷ []) forwarding-Forwards (refl, tt)
      (refl, tt) refl refl refl refl refl refl (refl, tt) (refl, tt) (omega arith) (refl, tt)
      (refl, tt) (omega arith)

abbrev start : Round
start = record { updated = false; sent = []; notices = []; owners = [] }

-- A layer with one edit that was not sent yet, while another one arrives
abbrev edited : LayerHandle
edited = open_layer "scene" (record layer_data {
  local_deltas = (2, record { spec_type = 2; fields = (7, number 5) ∷ [] }) ∷ [];
})

abbrev waiting : List (String × List DeltaEvent)
waiting = ("scene", first_edit ∷ []) ∷ []

process_layer_sends_example :
    (round' : Round) × (handle' : LayerHandle) × (process_layer codec "bob" true forwarding waiting
        [] start edited
      ≡ some (round', handle'))
    × (round'.sent
        ≡ start.sent
          ++ sent_of codec "bob" forwarding forwarding-Forwards edited.identifier
              edited.layer_data.local_deltas)
    × (handle'.layer_data.local_deltas ≡ [])
process_layer_sends_example =
    process_layer_sends codec "bob" forwarding forwarding-Forwards waiting [] start edited
      (((1, refl), tt), tt)
