-- ===== src/FileFormat/Following.antt =====
-- Sources/Server/Logic.cpp and Sources/Resolver/FileFormat.cpp together: a user joins a channel while
-- others edit a layer, and the client of the user applies what the server keeps.
use mathlib.Core.List.{append_assoc}
use render_studio_kit.Shared.{
  ◌+◌, ◌<◌, ◌≡◌, refl, ◌∙◌, sym, ap, subst, true, String, List, [], ◌∷◌, ◌++◌, none, some, arith,
  length, length-append, size_mod, string_key,
}
use render_studio_kit.Shared.Dict
use render_studio_kit.Usd.{Usd}
use render_studio_kit.Data.State.{Data}
use render_studio_kit.Data.Edit.{fetch_local_deltas}
use render_studio_kit.Data.Layer.{Layer, Forwards}
use render_studio_kit.Data.Process.{begin_processing, end_processing}
use render_studio_kit.Data.Delivery.{run_updates}
use render_studio_kit.Data.Reordering.{accumulate_all}
use render_studio_kit.Data.CatchUp.{numbered_from}
use render_studio_kit.Serialization.Api.{DeltaEvent, Codec, delta_event, history_event}
use render_studio_kit.Server.Channel.{Connection, Channel, layer_history, add_connection}
use render_studio_kit.Server.Logic.{Logic, on_connected, replay_deltas}
use render_studio_kit.Server.Numbering.{
  IsValid, IsNumbered, found-IsValid, layer_history-IsNumbered, on_connected-IsValid,
}
use render_studio_kit.Server.Broadcast.{messages_to, messages_to-append, Absent}
use render_studio_kit.Server.Observer.{
  Sending, AllOther, OfLayer, on_deltas, delta_texts, observer_receives,
}
use render_studio_kit.Server.Joining.{on_connected_joins, on_deltas-IsValid}
use render_studio_kit.FileFormat.Events.{
  FileFormat, on_message, on_event, on_body, process_history_event, receive,
}
use render_studio_kit.FileFormat.Loading.{Storage}
use render_studio_kit.FileFormat.LiveUpdates.{process_live_updates, Round}
use render_studio_kit.FileFormat.Receiving.{ReadsDeltas, tables, texts, open_layer}
use render_studio_kit.FileFormat.CatchUp.{joiner_catches_up}

module _ ⦃usd : Usd⦄ (codec : Codec) where
  open codec use {serialize, parse_event}

  receive-append :
      (f : FileFormat) (xs ys : List String)
      → receive codec f (xs ++ ys) ≡ receive codec (receive codec f xs) ys
  unfolding receive
  receive-append f [] ys = refl
  receive-append f (x ∷ xs) ys = receive-append (on_message codec f x) xs ys

  texts-replay :
      (to : Connection) (vs : List DeltaEvent)
      → texts (replay_deltas codec to vs) ≡ delta_texts codec vs
  unfolding replay_deltas
  texts-replay to [] = refl
  texts-replay to (v ∷ vs) = ap (λ ts. serialize (delta_event v) ∷ ts) (texts-replay to vs)

  delta_texts-append :
      (vs ws : List DeltaEvent)
      → delta_texts codec (vs ++ ws) ≡ delta_texts codec vs ++ delta_texts codec ws
  delta_texts-append [] ws = refl
  delta_texts-append (v ∷ vs) ws =
      ap (λ ts. serialize (delta_event v) ∷ ts) (delta_texts-append vs ws)

  -- The event that ends the history changes nothing.
  history_ignored :
      (f : FileFormat)
      → parse_event (serialize history_event) ≡ some history_event
      → on_message codec f (serialize history_event) ≡ f
  unfolding on_message on_event on_body process_history_event
  history_ignored f reads = rw reads refl

  receive-history :
      (f : FileFormat) (to : Connection) (vs ws : List DeltaEvent)
      → parse_event (serialize history_event) ≡ some history_event
      → receive codec f
          ((delta_texts codec vs ++ serialize history_event ∷ []) ++ delta_texts codec ws)
        ≡ receive codec f (texts (replay_deltas codec to (vs ++ ws)))
  unfolding receive
  receive-history f to vs ws reads =
      ap (receive codec f)
        (append_assoc (delta_texts codec vs) (serialize history_event ∷ []) (delta_texts codec ws))
      ∙ receive-append f (delta_texts codec vs) (serialize history_event ∷ delta_texts codec ws)
      ∙ ap (λ g. receive codec g (delta_texts codec ws))
          (history_ignored (receive codec f (delta_texts codec vs)) reads)
      ∙ sym (receive-append f (delta_texts codec vs) (delta_texts codec ws))
      ∙ ap (receive codec f) (sym (delta_texts-append vs ws) ∙ sym (texts-replay to (vs ++ ws)))

  OfLayer-append :
      (layer : String) (vs ws : List DeltaEvent)
      → OfLayer layer vs
      → OfLayer layer ws
      → OfLayer layer (vs ++ ws)
  OfLayer-append layer [] ws h k = k
  OfLayer-append layer (v ∷ vs) ws h k = (h.0, OfLayer-append layer vs ws h.1 k)

  -- What the server keeps of a layer in the channel of a connection
  abbrev pub server_history : Logic → Connection → String → List DeltaEvent
  server_history logic to layer = elim (Dict.find to.channel logic.channels) [
    | none ↦ []
    | some c ↦ layer_history c layer
  ]

  server_history_found :
      (logic : Logic) (to : Connection) (layer : String) (c : Channel)
      → Dict.find to.channel logic.channels ≡ some c
      → server_history logic to layer ≡ layer_history c layer
  server_history_found logic to layer c e = rw (e, server_history) refl

  server_history-IsNumbered :
      (logic : Logic) (to : Connection) (layer : String) (c : Channel)
      → IsValid logic
      → Dict.find to.channel logic.channels ≡ some c
      → IsNumbered (layer_history c layer)
  server_history-IsNumbered logic to layer c valid e =
      layer_history-IsNumbered c layer (found-IsValid to.channel c logic valid e).ordered

  -- ProcessLiveUpdates of a client that received a text after another applies the edits `vs` to its open
  -- layer, in order, and nothing else.
  abbrev pub Applies :
      Storage → String → Layer → FileFormat → String → Data → List DeltaEvent → Type 0
  Applies storage user layer received id d vs =
      let us = numbered_from 0 (tables vs) in
      let d' = accumulate_all (fetch_local_deltas d).0 us in
      (f' : FileFormat) × (round : Round) × (e : Data) × (process_live_updates storage codec user
          layer received
        ≡ some (f', round, []))
      × (f'.layer_registry ≡ (id, open_layer id e) ∷ [])
      × (e ≡ end_processing (run_updates layer us (begin_processing d')))
      × (e.latest_applied_sequence ≡ length vs)

  -- A user joins and others edit: the server afterwards, and the texts that reached the user
  abbrev pub followed : Logic → Connection → List Sending → Logic × List String
  followed logic to ss =
      let joined = on_connected codec logic to in
      let edited = on_deltas codec joined.0 ss in
      (edited.0, messages_to to.session (joined.1 ++ edited.1))

  -- A client with one open layer, for which nothing waits
  pub record IsFresh (f : FileFormat) (id : String) (d : Data) : Type 0 where
    pub one_layer : f.layer_registry ≡ (id, open_layer id d) ∷ []
    pub none_applied : d.latest_applied_sequence ≡ 0
    pub none_queued : d.remote_deltas_queue ≡ []
    pub client : f.has_client ≡ true
    pub no_deltas : f.accumulated_deltas ≡ []
    pub no_acknowledges : f.accumulated_acknowledges ≡ []
    pub no_reloads : f.requested_reloads ≡ []

  -- A user joins a channel in which one layer has a history, and other users go on editing the layer.
  -- The client of the user, which has the layer open and has applied nothing, receives what the server
  -- sends to it. Its next ProcessLiveUpdates applies every edit that the server keeps of the layer, the
  -- old and the new ones, in order, if the client can read them and their number stays below the
  -- greatest one.
  pub follower_catches_up :
      (storage : Storage) (user : String) (layer : Layer) (f : FileFormat) (id : String) (d : Data)
      (logic : Logic) (to : Connection) (c : Channel) (vs : List DeltaEvent) (ss : List Sending)
      → Forwards layer
      → parse_event (serialize history_event) ≡ some history_event
      → IsFresh f id d
      → IsValid logic
      → Dict.find to.channel logic.channels ≡ some c
      → c.history ≡ (id, vs) ∷ []
      → Absent to.session c.connections
      → OfLayer id vs
      → AllOther to id ss
      → length vs + length ss + 1 < size_mod
      → ReadsDeltas codec (server_history (followed logic to ss).0 to id)
      → (length (server_history (followed logic to ss).0 to id) ≡ length vs + length ss)
        × Applies storage user layer
            (receive codec f (followed logic to ss).1)
            id
            d
            (server_history (followed logic to ss).0 to id)
  follower_catches_up storage user layer f id d logic to c vs ss forwards reads fresh valid here
        one_layer absent same others small readable =
      let joined = on_connected codec logic to in
      let edited = on_deltas codec joined.0 ss in
      let (welcome, found, member, old) =
        on_connected_joins codec logic to id c vs here one_layer absent in
      let (ws, c2, found2, history, said, size, of_layer) =
        observer_receives codec joined.0 to id (add_connection c to) ss found member others in
      let kept : server_history edited.0 to id ≡ vs ++ ws =
        server_history_found edited.0 to id c2 found2 ∙ history ∙ ap (λ us. us ++ ws) old in
      let valid2 : IsValid edited.0 =
        on_deltas-IsValid codec joined.0 ss (on_connected-IsValid codec logic to valid) in
      let numbers : IsNumbered (vs ++ ws) =
        subst IsNumbered (history ∙ ap (λ us. us ++ ws) old)
          (server_history-IsNumbered edited.0 to id c2 valid2 found2) in
      let messages : (followed logic to ss).1
          ≡ (delta_texts codec vs ++ serialize history_event ∷ []) ++ delta_texts codec ws =
        messages_to-append to.session joined.1 edited.1
        ∙ ap (λ ts. ts ++ messages_to to.session edited.1) welcome
        ∙ ap (λ ts. (delta_texts codec vs ++ serialize history_event ∷ []) ++ ts) said in
      let total : length (vs ++ ws) ≡ length vs + length ss =
        length-append vs ws ∙ ap (λ n. length vs + n) size in
      let caught =
        joiner_catches_up storage codec user layer f id d to (vs ++ ws) forwards
          (subst (ReadsDeltas codec) kept readable) fresh.one_layer fresh.none_applied
          fresh.none_queued fresh.client fresh.no_deltas fresh.no_acknowledges fresh.no_reloads
          numbers (OfLayer-append id vs ws same of_layer) (omega (arith, total)) in
      (
        ap length kept ∙ total,
        subst (λ us. Applies storage user layer (receive codec f (followed logic to ss).1) id d us)
            (sym kept)
            (subst (λ g. Applies storage user layer g id d (vs ++ ws))
              (sym (ap (receive codec f) messages ∙ receive-history f to vs ws reads)) caught),
      )
