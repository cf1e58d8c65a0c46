-- ===== src/FileFormat/Receiving.antt =====
-- Sources/Resolver/FileFormat.cpp: what the arrival and the processing of numbered edits does to a
-- client with one open layer.
use mathlib.Core.List.{append-nil, append_assoc}
use render_studio_kit.Shared.{
  Bool-cases, inl, inr, not, is_nil, ℕ, Bool, suc, ◌+◌, ◌<◌, ◌≡◌, refl, ◌∙◌, sym, ap, true, false,
  String, List, [], ◌∷◌, ◌++◌, some, map, arith, length, get_or, subst, size_mod, string_key,
}
use render_studio_kit.Shared.Dict.{find-put_self}
use render_studio_kit.Usd.{Usd}
use render_studio_kit.Data.State.{HashTable, Data}
use render_studio_kit.Data.Edit.{fetch_local_deltas}
use render_studio_kit.Data.Layer.{Layer}
use render_studio_kit.Data.Process.{accumulate_remote_update, process_remote_updates}
use render_studio_kit.Data.Reordering.{accumulate_all}
use render_studio_kit.Data.CatchUp.{numbered_from}
use render_studio_kit.Serialization.Api.{DeltaEvent, AcknowledgeEvent, Codec, delta_event}
use render_studio_kit.Server.Channel.{Connection}
use render_studio_kit.Server.Logic.{replay_deltas}
use render_studio_kit.Server.Numbering.{NumberedFrom}
use render_studio_kit.Server.Observer.{OfLayer}
use render_studio_kit.FileFormat.Registry.{
  LayerHandle, remove_expired_layers, visit_layers, for_each_layer,
}
use render_studio_kit.FileFormat.Events.{
  FileFormat, pending, push_back, process_delta_event, on_body, on_event, on_message, receive,
}
use render_studio_kit.FileFormat.Loading.{Storage, reload_layers}
use render_studio_kit.FileFormat.LiveUpdates.{
  local_event, of_updates, accumulate_acknowledges, accumulate_deltas, send_local,
  process_accumulated, process_layer, process_live_updates, process_open_layers, Round,
}

module _ ⦃usd : Usd⦄ where
  -- What the codec writes for these edits, it reads back.
  abbrev pub ReadsDeltas : Codec → List DeltaEvent → Type 0
  ReadsDeltas codec [] = Unit {0}
  ReadsDeltas codec (v ∷ vs) =
      (codec.parse_event (codec.serialize (delta_event v)) ≡ some (delta_event v))
      × ReadsDeltas codec vs

  -- The updates of the edits, in the internal format
  abbrev pub tables : List DeltaEvent → List HashTable
  tables = map (λ v. of_updates v.updates)

  pub length-tables : (vs : List DeltaEvent) → length (tables vs) ≡ length vs
  length-tables [] = refl
  length-tables (v ∷ vs) = ap suc (length-tables vs)

  -- The texts of a message list
  abbrev pub texts : List (Connection × String) → List String
  texts = map (λ s. s.1)

  pending-push_back :
      (id : String) (v : DeltaEvent) (m : List (String × List DeltaEvent))
      → v.layer ≡ id
      → pending id (push_back v.layer v m) ≡ pending id m ++ v ∷ []
  unfolding push_back
  pending-push_back id v m e =
      subst (λ l. pending id (push_back l v m) ≡ pending id m ++ v ∷ []) (sym e)
        (ap (get_or []) (find-put_self id (pending id m ++ v ∷ []) m))

  pub process_delta_event_numbered :
      (f : FileFormat) (v : DeltaEvent) (n : ℕ)
      → v.sequence ≡ some n
      → process_delta_event f v
        ≡ record f { accumulated_deltas = push_back v.layer v f.accumulated_deltas }
  unfolding process_delta_event
  process_delta_event_numbered f v n e = rw e refl

  pub accumulate_deltas-all :
      (k : ℕ) (vs : List DeltaEvent) (d : Data)
      → NumberedFrom k vs
      → k + length vs < size_mod
      → accumulate_deltas vs d ≡ some (accumulate_all d (numbered_from k (tables vs)))
  unfolding accumulate_deltas accumulate_all
  accumulate_deltas-all k [] d h small = refl
  accumulate_deltas-all k (v ∷ vs) d h small =
      let number : v.sequence ≡ some (k + 1) = h.0 ∙ ap some (ground arith) in
      rw number (
        accumulate_deltas-all (k + 1) vs (accumulate_remote_update d (of_updates v.updates) (k + 1))
          h.1 (omega arith))

  module _ (codec : Codec) where
    pub on_message-delta :
        (f : FileFormat) (v : DeltaEvent) (n : ℕ)
        → codec.parse_event (codec.serialize (delta_event v)) ≡ some (delta_event v)
        → v.sequence ≡ some n
        → on_message codec f (codec.serialize (delta_event v))
          ≡ record f { accumulated_deltas = push_back v.layer v f.accumulated_deltas }
    unfolding on_message on_event on_body
    on_message-delta f v n reads e = rw reads (process_delta_event_numbered f v n e)

    -- What waits for the layer after the history was received
    pub receive-pending :
        (k : ℕ) (connection : Connection) (id : String) (vs : List DeltaEvent) (f : FileFormat)
        → ReadsDeltas codec vs
        → NumberedFrom k vs
        → OfLayer id vs
        → let f' = receive codec f (texts (replay_deltas codec connection vs)) in
          (pending id f'.accumulated_deltas ≡ pending id f.accumulated_deltas ++ vs)
          × (f' ≡ record f { accumulated_deltas = f'.accumulated_deltas })
    unfolding receive replay_deltas
    receive-pending k connection id [] f reads h same = (sym (append-nil _), refl)
    receive-pending k connection id (v ∷ vs) f reads h same =
        let acc = f.accumulated_deltas in
        let f1 : FileFormat = record f { accumulated_deltas = push_back v.layer v acc } in
        let r = receive-pending (k + 1) connection id vs f1 reads.1 h.1 same.1 in
        let one : pending id f1.accumulated_deltas ≡ pending id acc ++ v ∷ [] =
          pending-push_back id v acc same.0 in
        rw (receive, on_message-delta f v _ reads.0 h.0)
          (r.0 ∙ ap (λ ws. ws ++ vs) one ∙ append_assoc (pending id acc) (v ∷ []) vs, r.1)

  module _ (codec : Codec) (user : String) (layer : Layer) where
    pub send_local-some :
        (id : String) (local : HashTable) (round : Round)
        → (round' : Round) × (send_local codec user true id local round ≡ some round')
          × (local ≡ [] → round'.sent ≡ round.sent)
    unfolding send_local
    send_local-some id [] round = (round, refl, λ e. refl)
    send_local-some id (x ∷ local) round =
        let event = delta_event (local_event user id (x ∷ local)) in
        elim (Bool-cases (codec.can_serialize event)) [
          | inl e ↦ (
            record round { sent = round.sent ++ codec.serialize event ∷ [] },
            rw (send_local, e) refl,
            λ none_local. absurd (cc none_local),
          )
          | inr e ↦ (round, rw (send_local, e) refl, λ none_local. refl)
        ]

    -- The updates of a layer for which only edits wait
    process_layer-all :
        (k : ℕ) (deltas : List (String × List DeltaEvent))
        (acks : List (String × List AcknowledgeEvent)) (round : Round) (handle : LayerHandle)
        (vs : List DeltaEvent)
        → pending handle.identifier deltas ≡ vs
        → pending handle.identifier acks ≡ []
        → NumberedFrom k vs
        → k + length vs < size_mod
        → let d =
            accumulate_all (fetch_local_deltas handle.layer_data).0 (numbered_from k (tables vs)) in
          (round' : Round) × (process_layer codec user true layer deltas acks round handle
            ≡ some (round', record handle { layer_data = (process_remote_updates layer d).0 }))
          × (handle.layer_data.local_deltas ≡ [] → round'.sent ≡ round.sent)
    unfolding process_layer process_accumulated accumulate_acknowledges fetch_local_deltas
    process_layer-all k deltas acks round handle vs e e' h small =
        let id = handle.identifier in
        let d = (fetch_local_deltas handle.layer_data).0 in
        let s = send_local-some id handle.layer_data.local_deltas round in
        let d' = accumulate_all d (numbered_from k (tables vs)) in
        (
          (process_accumulated codec user true layer d' s.0).1,
          rw (process_layer, s.1, e', e, accumulate_deltas-all k vs d h (omega arith)) refl,
          s.2,
        )

  -- A layer that is open
  abbrev pub open_layer : String → Data → LayerHandle
  open_layer id d = record { identifier = id; is_expired = false; layer_data = d }

  -- A client with one open layer, for which only edits wait
  abbrev pub with_edits : String → Data → List (String × List DeltaEvent) → Bool → FileFormat
  with_edits id d deltas reloading = record {
    layer_registry = (id, open_layer id d) ∷ [];
    has_client = true;
    accumulated_deltas = deltas;
    accumulated_acknowledges = [];
    requested_reloads = [];
    reload_in_progress = reloading;
  }

  -- What the call starts from: everything that waited is taken.
  abbrev pub taken : FileFormat → FileFormat
  taken f = record f {
    accumulated_deltas = [];
    requested_reloads = [];
    accumulated_acknowledges = [];
    reload_in_progress = true;
  }

  open_layers-one :
      (k : ℕ) (codec : Codec) (user : String) (layer : Layer) (id : String) (d : Data)
      (deltas : List (String × List DeltaEvent)) (acks : List (String × List AcknowledgeEvent))
      (reloaded : List String) (vs : List DeltaEvent)
      → pending id deltas ≡ vs
      → pending id acks ≡ []
      → NumberedFrom k vs
      → k + length vs < size_mod
      → let d' = accumulate_all (fetch_local_deltas d).0 (numbered_from k (tables vs)) in
        let e = (process_remote_updates layer d').0 in
        (round : Round) × (process_open_layers codec user layer deltas acks
            (with_edits id d [] true, [], reloaded)
          ≡ some (with_edits id e [] false, round, reloaded))
        × (d.local_deltas ≡ [] → round.sent ≡ [])
  unfolding process_open_layers for_each_layer remove_expired_layers visit_layers
  open_layers-one k codec user layer id d deltas acks reloaded vs waiting no_acks numbers small =
      let start : Round = record {
        updated = not (is_nil reloaded);
        sent = [];
        notices = [];
        owners = [];
      } in
      let p =
        process_layer-all codec user layer k deltas acks start (open_layer id d) vs waiting no_acks
          numbers small in
      (p.0, rw (process_open_layers, p.1) refl, p.2)

  pub live_updates-one :
      (k : ℕ) (storage : Storage) (codec : Codec) (user : String) (layer : Layer) (f : FileFormat)
      (id : String) (d : Data) (reloaded : List String) (vs : List DeltaEvent)
      → reload_layers storage codec user f.requested_reloads (taken f)
        ≡ (with_edits id d [] true, [], reloaded)
      → pending id f.accumulated_deltas ≡ vs
      → pending id f.accumulated_acknowledges ≡ []
      → NumberedFrom k vs
      → k + length vs < size_mod
      → let d' = accumulate_all (fetch_local_deltas d).0 (numbered_from k (tables vs)) in
        let e = (process_remote_updates layer d').0 in
        (round : Round) × (process_live_updates storage codec user layer f
          ≡ some (with_edits id e [] false, round, reloaded))
        × (d.local_deltas ≡ [] → round.sent ≡ [])
  unfolding process_live_updates
  live_updates-one k storage codec user layer f id d reloaded vs started waiting no_acks numbers
        small =
      let p =
        open_layers-one k codec user layer id d f.accumulated_deltas f.accumulated_acknowledges
          reloaded vs waiting no_acks numbers small in
      (
        p.0,
        ap (process_open_layers codec user layer f.accumulated_deltas f.accumulated_acknowledges)
              started
            ∙ p.1,
        p.2,
      )
