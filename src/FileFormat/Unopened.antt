-- ===== src/FileFormat/Unopened.antt =====
-- Sources/Resolver/FileFormat.cpp: edits of a layer that arrive before the layer is opened.
use render_studio_kit.Shared.{
  ◌+◌, ◌<◌, ◌≡◌, refl, ◌∙◌, ap, true, false, String, List, [], ◌∷◌, ◌++◌, some, arith, length,
  size_mod, string_key,
}
use render_studio_kit.Shared.Dict
use render_studio_kit.Shared.Dict.{find-erase, find-put_self, find-put}
use render_studio_kit.Usd.{Usd}
use render_studio_kit.Data.State.{Data, on_loaded}
use render_studio_kit.Data.Edit.{fetch_local_deltas}
use render_studio_kit.Data.Layer.{Layer, Forwards}
use render_studio_kit.Data.CatchUp.{process_remote_updates-missing}
use render_studio_kit.Serialization.Api.{DeltaEvent, Codec}
use render_studio_kit.Server.Channel.{Connection}
use render_studio_kit.Server.Logic.{replay_deltas}
use render_studio_kit.Server.Numbering.{NumberedFrom, IsNumbered}
use render_studio_kit.FileFormat.Registry.{
  add_layer, get_by_identifier, remove_expired_layers, visit_layers, for_each_layer,
}
use render_studio_kit.FileFormat.Events.{FileFormat, pending, receive}
use render_studio_kit.FileFormat.Loading.{Storage, reload_layers, read, register, loaded_data}
use render_studio_kit.FileFormat.LiveUpdates.{process_open_layers, process_live_updates, Round}
use render_studio_kit.FileFormat.Receiving.{
  ReadsDeltas, tables, texts, receive-pending, open_layer, with_edits, taken, live_updates-one,
}
use render_studio_kit.Server.Observer.{OfLayer}

module _ ⦃usd : Usd⦄ where
  -- The state after a call without open layers
  abbrev cleared : FileFormat → FileFormat
  cleared f = record (taken f) { reload_in_progress = false }

  live_updates-none :
      (storage : Storage) (codec : Codec) (user : String) (layer : Layer) (f : FileFormat)
      → f.layer_registry ≡ []
      → f.requested_reloads ≡ []
      → (round : Round) × (process_live_updates storage codec user layer f
          ≡ some (cleared f, round, []))
  unfolding process_live_updates process_open_layers reload_layers for_each_layer
      remove_expired_layers visit_layers
  live_updates-none storage codec user layer f no_layers no_reloads = (
    record { updated = false; sent = []; notices = []; owners = [] },
    rw (process_live_updates, no_reloads, no_layers) refl,
  )

  read-first :
      (storage : Storage) (codec : Codec) (user : String) (f : FileFormat) (id path : String)
      (format : storage.Format) (source : storage.Source)
      → f.layer_registry ≡ []
      → storage.original_format path ≡ some format
      → storage.read_original format path ≡ some source
      → (read storage codec user f id path).1 ≡ record f {
        layer_registry = (id, open_layer id (loaded_data storage codec user source)) ∷ [];
      }
  unfolding read register get_by_identifier add_layer Dict.find Dict.put
  read-first storage codec user f id path format source no_layers known readable =
      rw (read, known, readable, no_layers) refl

  -- A client without open layers receives numbered edits of a layer, and ProcessLiveUpdates is called.
  -- Then the layer is opened, edits with the numbers that follow arrive, and ProcessLiveUpdates is
  -- called again. If there was an edit before the opening, the layer keeps what the file says: none
  -- of the edits is applied, before or after, and the client goes on waiting for the number 1.
  pub unopened_layer_stuck :
      (storage : Storage) (codec : Codec) (user : String) (layer : Layer) (f : FileFormat)
      (id path : String) (format : storage.Format) (source : storage.Source)
      (connection : Connection) (vs ws : List DeltaEvent)
      → Forwards layer
      → ReadsDeltas codec vs
      → ReadsDeltas codec ws
      → storage.original_format path ≡ some format
      → storage.read_original format path ≡ some source
      → f.layer_registry ≡ []
      → f.has_client ≡ true
      → f.accumulated_acknowledges ≡ []
      → f.requested_reloads ≡ []
      → IsNumbered vs
      → OfLayer id vs
      → 0 < length vs
      → NumberedFrom (length vs) ws
      → OfLayer id ws
      → length vs + length ws < size_mod
      → let before = receive codec f (texts (replay_deltas codec connection vs)) in
        let loaded = loaded_data storage codec user source in
        (f' : FileFormat) × (round : Round) × (process_live_updates storage codec user layer before
          ≡ some (f', round, []))
        × (let opened = (read storage codec user f' id path).1 in
            let after = receive codec opened (texts (replay_deltas codec connection ws)) in
            (f'' : FileFormat) × (round' : Round) × (e : Data) × (process_live_updates storage codec
                user layer after
              ≡ some (f'', round', []))
            × (f''.layer_registry ≡ (id, open_layer id e) ∷ [])
            × (e.table ≡ loaded.table)
            × (e.latest_applied_sequence ≡ 0))
  unfolding fetch_local_deltas loaded_data on_loaded reload_layers Dict.find
  unopened_layer_stuck storage codec user layer f id path format source connection vs ws forwards
        reads reads' known readable no_layers client no_acks no_reloads numbers same some_edit
        numbers' same' small =
      let before = receive codec f (texts (replay_deltas codec connection vs)) in
      let r = receive-pending codec 0 connection id vs f reads numbers same in
      let first =
        live_updates-none storage codec user layer before
          (ap (λ (h : FileFormat). h.layer_registry) r.1 ∙ no_layers)
          (ap (λ (h : FileFormat). h.requested_reloads) r.1 ∙ no_reloads) in
      let f' = cleared before in
      let loaded = loaded_data storage codec user source in
      let opened = (read storage codec user f' id path).1 in
      let opening =
        read-first storage codec user f' id path format source
          (ap (λ (h : FileFormat). h.layer_registry) r.1 ∙ no_layers) known readable in
      let has : before.has_client ≡ true = ap (λ (h : FileFormat). h.has_client) r.1 ∙ client in
      let start : opened ≡ with_edits id loaded [] false = opening ∙ cc in
      let after = receive codec opened (texts (replay_deltas codec connection ws)) in
      let r' = receive-pending codec (length vs) connection id ws opened reads' numbers' same' in
      let ready : after ≡ with_edits id loaded after.accumulated_deltas false =
        r'.1
        ∙ ap (λ (h : FileFormat). record h { accumulated_deltas = after.accumulated_deltas })
            start in
      let l =
        live_updates-one (length vs) storage codec user layer after id loaded [] ws
          (ap (λ (h : FileFormat). reload_layers storage codec user h.requested_reloads (taken h))
            ready)
          (r'.0 ∙ ap (λ (h : FileFormat). pending id h.accumulated_deltas ++ ws) start)
          (ap (λ (h : FileFormat). pending id h.accumulated_acknowledges) ready) numbers'
          (omega arith) in
      let m =
        process_remote_updates-missing layer forwards 0 (length vs) (tables ws) loaded refl refl
          some_edit (omega arith) in
      (f', first.0, first.1, (_, l.0, _, l.1, refl, m.0, m.1))
