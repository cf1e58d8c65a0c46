-- ===== src/FileFormat/CatchUp.antt =====
-- Sources/Resolver/FileFormat.cpp and Sources/Server/Logic.cpp: a client that joins a channel is sent
-- the history of a layer, and catches up with it.
use render_studio_kit.Shared.{
  ◌+◌, ◌<◌, ◌≡◌, refl, ◌∙◌, ap, true, String, List, [], ◌∷◌, ◌++◌, some, arith, length, size_mod,
  string_key,
}
use render_studio_kit.Shared.Dict
use render_studio_kit.Shared.Dict.{find-put_self, find-put}
use render_studio_kit.Usd.{Usd}
use render_studio_kit.Data.State.{Data}
use render_studio_kit.Data.Edit.{fetch_local_deltas}
use render_studio_kit.Data.Layer.{Layer, Forwards}
use render_studio_kit.Data.Process.{begin_processing, end_processing}
use render_studio_kit.Data.Delivery.{run_updates}
use render_studio_kit.Data.Reordering.{accumulate_all}
use render_studio_kit.Data.CatchUp.{numbered_from, process_remote_updates-all}
use render_studio_kit.Serialization.Api.{DeltaEvent, Codec}
use render_studio_kit.Server.Channel.{Connection}
use render_studio_kit.Server.Logic.{replay_deltas}
use render_studio_kit.Server.Numbering.{IsNumbered}
use render_studio_kit.FileFormat.Events.{FileFormat, pending, receive}
use render_studio_kit.FileFormat.Loading.{Storage, reload_layers}
use render_studio_kit.FileFormat.LiveUpdates.{process_live_updates, Round}
use render_studio_kit.FileFormat.Receiving.{
  ReadsDeltas, tables, length-tables, texts, receive-pending, open_layer, with_edits, taken,
  live_updates-one,
}
use render_studio_kit.Server.Observer.{OfLayer}

module _ ⦃usd : Usd⦄ where
  -- A client with one open layer that was read but has applied nothing, and for which nothing else
  -- waits, receives the numbered history of that layer as the server replays it to a new connection.
  -- The next ProcessLiveUpdates then applies every edit of the history in order, and the number of
  -- the latest update is the length of the history, which must not exceed what std::size_t counts.
  pub joiner_catches_up :
      (storage : Storage) (codec : Codec) (user : String) (layer : Layer) (f : FileFormat)
      (id : String) (d : Data) (connection : Connection) (vs : List DeltaEvent)
      → Forwards layer
      → ReadsDeltas codec vs
      → f.layer_registry ≡ (id, open_layer id d) ∷ []
      → d.latest_applied_sequence ≡ 0
      → d.remote_deltas_queue ≡ []
      → f.has_client ≡ true
      → f.accumulated_deltas ≡ []
      → f.accumulated_acknowledges ≡ []
      → f.requested_reloads ≡ []
      → IsNumbered vs
      → OfLayer id vs
      → length vs + 1 < size_mod
      → let joined = receive codec f (texts (replay_deltas codec connection vs)) in
        let us = numbered_from 0 (tables vs) in
        let d' = accumulate_all (fetch_local_deltas d).0 us in
        (f' : FileFormat) × (round : Round) × (e : Data) × (process_live_updates storage codec user
            layer joined
          ≡ some (f', round, []))
        × (f'.layer_registry ≡ (id, open_layer id e) ∷ [])
        × (e ≡ end_processing (run_updates layer us (begin_processing d')))
        × (e.latest_applied_sequence ≡ length vs)
  unfolding Dict.find fetch_local_deltas reload_layers
  joiner_catches_up storage codec user layer f id d connection vs forwards reads one_layer fresh
        waiting client no_deltas no_acks no_reloads numbers same small =
      let joined = receive codec f (texts (replay_deltas codec connection vs)) in
      let r = receive-pending codec 0 connection id vs f reads numbers same in
      let ready : joined ≡ with_edits id d joined.accumulated_deltas f.reload_in_progress =
        r.1 ∙ cc in
      let l =
        live_updates-one 0 storage codec user layer joined id d [] vs
          (ap (λ (g : FileFormat). reload_layers storage codec user g.requested_reloads (taken g))
            ready)
          (r.0 ∙ ap (λ m. pending id m ++ vs) no_deltas)
          (ap (λ (g : FileFormat). pending id g.accumulated_acknowledges) ready) numbers
          (omega arith) in
      let a =
        process_remote_updates-all layer forwards 0 (tables vs) (fetch_local_deltas d).0 fresh
          waiting (omega (arith, length-tables vs)) in
      (_, l.0, _, l.1, refl, a.0, a.1 ∙ omega (arith, length-tables vs))
