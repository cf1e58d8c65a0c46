-- ===== src/FileFormat/LocalEdits.antt =====
-- Sources/Resolver/FileFormat.cpp: what ProcessLiveUpdates sends of the local edits of a layer.
use mathlib.Core.List.{append-nil}
use render_studio_kit.Shared.{
  sym, ◌≡◌, refl, ◌∙◌, true, not, ◌||◌, String, List, [], ◌∷◌, ◌++◌, some, is_nil, if◌then◌else◌,
  inl, inr, arith, Bool-cases, Option-cases, string_key,
}
use render_studio_kit.Shared.Dict
use render_studio_kit.Usd.{Usd}
use render_studio_kit.Data.State.{HashTable, Data}
use render_studio_kit.Data.Edit.{fetch_local_deltas}
use render_studio_kit.Data.Layer.{Layer, Forwards}
use render_studio_kit.Data.Process.{accumulate_remote_update}
use render_studio_kit.Data.Delivery.{process_remote_updates-in_order}
use render_studio_kit.Serialization.Api.{DeltaEvent, AcknowledgeEvent, Codec, delta_event}
use render_studio_kit.FileFormat.Registry.{LayerHandle}
use render_studio_kit.FileFormat.Events.{pending}
use render_studio_kit.FileFormat.LiveUpdates.{
  Round, local_event, of_paths, of_updates, accumulate_acknowledges, accumulate_deltas, send_local,
  process_accumulated, process_layer,
}
use render_studio_kit.FileFormat.NoFailure.{
  AllHaveNumbers, accumulate_deltas-some, pending-AllHaveNumbers,
}

module _ ⦃usd : Usd⦄ where
  accumulate_acknowledges-local :
      (vs : List AcknowledgeEvent) (d : Data)
      → (accumulate_acknowledges vs d).local_deltas ≡ d.local_deltas
  unfolding accumulate_acknowledges accumulate_remote_update
  accumulate_acknowledges-local [] d = refl
  accumulate_acknowledges-local (v ∷ vs) d =
      accumulate_acknowledges-local vs (accumulate_remote_update d (of_paths v.paths) v.sequence)

  accumulate_deltas-local :
      (vs : List DeltaEvent) (d d' : Data)
      → accumulate_deltas vs d ≡ some d'
      → d'.local_deltas ≡ d.local_deltas
  unfolding accumulate_deltas accumulate_remote_update
  accumulate_deltas-local [] d d' e = ground arith
  accumulate_deltas-local (v ∷ vs) d d' e = elim (Option-cases v.sequence) [
    | inl f ↦ ground arith
    | inr (n, f) ↦
        ground (
          arith,
          accumulate_deltas-local vs (accumulate_remote_update d (of_updates v.updates) n) d',
        )
  ]

  module _ (codec : Codec) (user : String) (layer : Layer) (forwards : Forwards layer) where
    -- What is sent of the local edits
    abbrev pub sent_of : String → HashTable → List String
    sent_of id local =
        let event = delta_event (local_event user id local) in
        if is_nil local || not (codec.can_serialize event) then [] else codec.serialize event ∷ []

    send_local-sent :
        (id : String) (local : HashTable) (round : Round)
        → (round' : Round) × (send_local codec user true id local round ≡ some round')
          × (round'.sent ≡ round.sent ++ sent_of id local)
    unfolding send_local
    send_local-sent id local round =
        let event = delta_event (local_event user id local) in
        elim (Bool-cases (is_nil local || not (codec.can_serialize event))) [
          | inl e ↦ (round, rw (send_local, e) refl, rw e (sym (append-nil round.sent)))
          | inr e ↦ (
            record round { sent = round.sent ++ codec.serialize event ∷ [] },
            rw (send_local, e) refl,
            rw e refl,
          )
        ]

    -- What the callback of ForEachLayer does with the local edits of a layer, if the edits that wait
    -- for the layer have numbers and there is a client: one event with all of them is sent, if there
    -- are any and value_from does not throw on the event, and in every case none of them waits any
    -- more. So the edits are lost where it throws.
    pub process_layer_sends :
        (deltas : List (String × List DeltaEvent)) (acks : List (String × List AcknowledgeEvent))
        (round : Round) (handle : LayerHandle)
        → Dict.All AllHaveNumbers deltas
        → (round' : Round) × (handle' : LayerHandle) × (process_layer codec user true layer deltas
              acks round handle
            ≡ some (round', handle'))
          × (round'.sent ≡ round.sent ++ sent_of handle.identifier handle.layer_data.local_deltas)
          × (handle'.layer_data.local_deltas ≡ [])
    unfolding process_layer process_accumulated fetch_local_deltas
    process_layer_sends deltas acks round handle h =
        let id = handle.identifier in
        let d = (fetch_local_deltas handle.layer_data).0 in
        let s = send_local-sent id handle.layer_data.local_deltas round in
        let known = accumulate_acknowledges (pending id acks) d in
        let a =
          accumulate_deltas-some (pending id deltas) known (pending-AllHaveNumbers id deltas h) in
        let p = process_accumulated codec user true layer a.0 s.0 in
        (
          p.1,
          record handle { layer_data = p.0 },
          rw (process_layer, s.1, a.1) refl,
          s.2,
          (process_remote_updates-in_order layer forwards a.0).2
              ∙ accumulate_deltas-local (pending id deltas) known a.0 a.1
              ∙ accumulate_acknowledges-local (pending id acks) d,
        )
