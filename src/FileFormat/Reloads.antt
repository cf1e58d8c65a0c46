-- ===== src/FileFormat/Reloads.antt =====
-- Sources/Resolver/FileFormat.cpp: a layer that another user reloads starts anew.
use render_studio_kit.Shared.{
  ℕ, ◌+◌, ◌<◌, ◌≡◌, refl, ◌∙◌, ap, true, String, List, [], ◌∷◌, ◌++◌, some, arith, length, size_mod,
  string_key,
}
use render_studio_kit.Shared.Dict
use render_studio_kit.Shared.Dict.{find-erase, find-put_self, find-put}
use render_studio_kit.Usd.{Usd}
use render_studio_kit.Data.State.{Data, on_loaded}
use render_studio_kit.Data.Edit.{fetch_local_deltas}
use render_studio_kit.Data.Layer.{Layer, Forwards}
use render_studio_kit.Data.Process.{begin_processing, end_processing}
use render_studio_kit.Data.Delivery.{run_updates}
use render_studio_kit.Data.Reordering.{accumulate_all}
use render_studio_kit.Data.CatchUp.{numbered_from, process_remote_updates-all}
use render_studio_kit.Serialization.Api.{DeltaEvent, ReloadEvent, reload_event, Codec}
use render_studio_kit.Server.Channel.{Connection}
use render_studio_kit.Server.Logic.{replay_deltas}
use render_studio_kit.Server.Numbering.{IsNumbered}
use render_studio_kit.FileFormat.Registry.{is_null, get_by_identifier}
use render_studio_kit.FileFormat.Events.{
  FileFormat, pending, process_reload_event, on_body, on_event, on_message, receive,
}
use render_studio_kit.FileFormat.Loading.{
  Storage, reload_layers, reload_layer, read, register, announce_reload, loaded_data,
}
use render_studio_kit.FileFormat.LiveUpdates.{process_live_updates, Round}
use render_studio_kit.FileFormat.Receiving.{
  ReadsDeltas, tables, length-tables, texts, receive-pending, open_layer, with_edits, taken,
  live_updates-one,
}
use render_studio_kit.Server.Observer.{OfLayer}

module _ ⦃usd : Usd⦄ where
  find_one : {V : Type 0} (id : String) (v : V) → Dict.find id ((id, v) ∷ []) ≡ some v
  unfolding Dict.find
  find_one id v = ground arith

  put_one : {V : Type 0} (id : String) (v w : V) → Dict.put id w ((id, v) ∷ []) ≡ (id, w) ∷ []
  unfolding Dict.put
  put_one id v w = ground arith

  module _ (storage : Storage) (codec : Codec) (user : String) where
    register-one :
        (id : String) (d e : Data)
        → register storage codec user ((id, open_layer id d) ∷ []) id e ≡ (id, open_layer id e) ∷ []
    unfolding register get_by_identifier
    register-one id d e = rw (register, find_one id (open_layer id d)) (put_one id _ _)

    read-one :
        (id path : String) (d : Data) (format : storage.Format) (source : storage.Source)
        → storage.original_format path ≡ some format
        → storage.read_original format path ≡ some source
        → read storage codec user (with_edits id d [] true) id path
          ≡ (true, with_edits id (loaded_data storage codec user source) [] true, [])
    unfolding read announce_reload
    read-one id path d format source known readable =
        rw (read, known, readable, register-one id d (loaded_data storage codec user source)) refl

    reload_layer-one :
        (id path : String) (d : Data) (format : storage.Format) (source : storage.Source)
        → storage.reload_path id ≡ some path
        → storage.original_format path ≡ some format
        → storage.read_original format path ≡ some source
        → reload_layer storage codec user (with_edits id d [] true) id
          ≡ (with_edits id (loaded_data storage codec user source) [] true, [])
    unfolding reload_layer
    reload_layer-one id path d format source found known readable =
        rw (reload_layer, found, read-one id path d format source known readable) refl

    -- One open layer is read again.
    reload_layers-one :
        (id path : String) (d : Data) (format : storage.Format) (source : storage.Source)
        → storage.reload_path id ≡ some path
        → storage.original_format path ≡ some format
        → storage.read_original format path ≡ some source
        → reload_layers storage codec user (id ∷ []) (with_edits id d [] true)
          ≡ (with_edits id (loaded_data storage codec user source) [] true, [], id ∷ [])
    unfolding reload_layers get_by_identifier is_null
    reload_layers-one id path d format source found known readable =
        rw
          (
            reload_layers,
            find_one id (open_layer id d),
            reload_layer-one id path d format source found known readable,
          )
          refl

  pending_erased :
      {E : Type 0} (l id : String) (m : List (String × List E))
      → l ≡ id
      → pending id (Dict.erase l m) ≡ []
  pending_erased l id m e = ground (arith, find-erase id l m)

  reload-pending :
      (codec : Codec) (f : FileFormat) (message : String) (v : ReloadEvent) (n : ℕ)
      → codec.parse_event message ≡ some (reload_event v)
      → v.sequence ≡ some n
      → on_message codec f message ≡ record f {
        accumulated_deltas = Dict.erase v.layer f.accumulated_deltas;
        accumulated_acknowledges = Dict.erase v.layer f.accumulated_acknowledges;
        requested_reloads = f.requested_reloads ++ v.layer ∷ [];
      }
  unfolding on_message on_event on_body process_reload_event
  reload-pending codec f message v n parses number =
      rw (on_message, parses, process_reload_event, number) refl

  -- Another user reloads the one open layer of a client, whatever the client has applied before and
  -- whatever waits for the layer, and sends numbered edits afterwards. The next ProcessLiveUpdates
  -- reads the layer again, applies exactly the edits that came after the reload, in order, sends
  -- nothing, and announces that the layer was reloaded. The files must be readable, and the number
  -- of the edits must not exceed what std::size_t counts.
  pub reload_restarts :
      (storage : Storage) (codec : Codec) (user : String) (layer : Layer) (f : FileFormat)
      (id path : String) (d : Data) (format : storage.Format) (source : storage.Source)
      (message : String) (v : ReloadEvent) (n : ℕ) (connection : Connection) (vs : List DeltaEvent)
      → Forwards layer
      → ReadsDeltas codec vs
      → storage.reload_path id ≡ some path
      → storage.original_format path ≡ some format
      → storage.read_original format path ≡ some source
      → f.layer_registry ≡ (id, open_layer id d) ∷ []
      → f.has_client ≡ true
      → f.requested_reloads ≡ []
      → codec.parse_event message ≡ some (reload_event v)
      → v.layer ≡ id
      → v.sequence ≡ some n
      → IsNumbered vs
      → OfLayer id vs
      → length vs + 1 < size_mod
      → let joined = receive codec f (message ∷ texts (replay_deltas codec connection vs)) in
        let us = numbered_from 0 (tables vs) in
        let d' = accumulate_all (loaded_data storage codec user source) us in
        (f' : FileFormat) × (round : Round) × (e : Data) × (process_live_updates storage codec user
            layer joined
          ≡ some (f', round, id ∷ []))
        × (f'.layer_registry ≡ (id, open_layer id e) ∷ [])
        × (e ≡ end_processing (run_updates layer us (begin_processing d')))
        × (e.latest_applied_sequence ≡ length vs)
        × (round.sent ≡ [])
  unfolding receive fetch_local_deltas loaded_data on_loaded
  reload_restarts storage codec user layer f id path d format source message v n connection vs
        forwards reads found known readable one_layer client no_reloads parses of_layer number
        numbers same small =
      let g = on_message codec f message in
      let told = reload-pending codec f message v n parses number in
      let acks_gone : pending id g.accumulated_acknowledges ≡ [] =
        ap (λ (h : FileFormat). pending id h.accumulated_acknowledges) told
        ∙ pending_erased v.layer id f.accumulated_acknowledges of_layer in
      let deltas_gone : pending id g.accumulated_deltas ≡ [] =
        ap (λ (h : FileFormat). pending id h.accumulated_deltas) told
        ∙ pending_erased v.layer id f.accumulated_deltas of_layer in
      let joined = receive codec g (texts (replay_deltas codec connection vs)) in
      let r = receive-pending codec 0 connection id vs g reads numbers same in
      let registry : g.layer_registry ≡ (id, open_layer id d) ∷ [] =
        ap (λ (h : FileFormat). h.layer_registry) told ∙ one_layer in
      let has : g.has_client ≡ true = ap (λ (h : FileFormat). h.has_client) told ∙ client in
      let start : taken joined ≡ with_edits id d [] true = ap taken r.1 ∙ cc in
      let reloads : joined.requested_reloads ≡ id ∷ [] =
        ap (λ (h : FileFormat). h.requested_reloads) r.1
        ∙ ap (λ (h : FileFormat). h.requested_reloads) told
        ∙ ap (λ rs. rs ++ v.layer ∷ []) no_reloads
        ∙ ap (λ l. l ∷ []) of_layer in
      let started =
        ap (λ rs. reload_layers storage codec user rs (taken joined)) reloads
        ∙ ap (reload_layers storage codec user (id ∷ [])) start
        ∙ reload_layers-one storage codec user id path d format source found known readable in
      let l =
        live_updates-one 0 storage codec user layer joined id
          (loaded_data storage codec user source) (id ∷ []) vs started
          (r.0 ∙ ap (λ ws. ws ++ vs) deltas_gone)
          (ap (λ (h : FileFormat). pending id h.accumulated_acknowledges) r.1 ∙ acks_gone) numbers
          (omega arith) in
      let a =
        process_remote_updates-all layer forwards 0 (tables vs)
          (loaded_data storage codec user source) refl refl (omega (arith, length-tables vs)) in
      (_, l.0, _, l.1, refl, a.0, a.1 ∙ omega (arith, length-tables vs), l.2 refl)
