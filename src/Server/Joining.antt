-- ===== src/Server/Joining.antt =====
-- Sources/Server/Logic.cpp: what a user who joins a channel with one edited layer is sent, and what the
-- server keeps numbered while others edit.
use mathlib.Core.List.{append-nil}
use render_studio_kit.Shared.{
  ◌≡◌, refl, ◌∙◌, ap, String, List, [], ◌∷◌, ◌++◌, some, get_or, arith, string_key,
}
use render_studio_kit.Shared.Dict
use render_studio_kit.Shared.Dict.{find-put_self}
use render_studio_kit.Usd.{Usd}
use render_studio_kit.Serialization.Api.{DeltaEvent, Codec, history_event}
use render_studio_kit.Server.Channel.{Connection, Channel, add_connection, layer_history}
use render_studio_kit.Server.Logic.{Logic, on_connected, on_delta, replay_deltas, replay_history}
use render_studio_kit.Server.Numbering.{IsValid, on_delta-IsValid}
use render_studio_kit.Server.Broadcast.{messages_to, messages_to-append, Absent}
use render_studio_kit.Server.Observer.{Sending, IsMember, on_deltas, delta_texts}

module _ ⦃usd : Usd⦄ (codec : Codec) where
  open codec use {serialize}

  replayed :
      (to : Connection) (vs : List DeltaEvent)
      → messages_to to.session (replay_deltas codec to vs) ≡ delta_texts codec vs
  unfolding replay_deltas
  replayed to [] = refl
  replayed to (v ∷ vs) = ground (arith, replayed to vs)

  added-IsMember :
      (c : Channel) (to : Connection)
      → Absent to.session c.connections
      → IsMember (add_connection c to) to
  unfolding add_connection
  added-IsMember c to absent = record {
    before = c.connections;
    after = [];
    members = refl;
    absent_before = absent;
    absent_after = tt;
  }

  last_text :
      (to : Connection) (text : String) → messages_to to.session ((to, text) ∷ []) ≡ text ∷ []
  last_text to text = ground arith

  replayed_history :
      (to : Connection) (layer text : String) (vs : List DeltaEvent)
      → messages_to to.session (replay_history codec to ((layer, vs) ∷ []) ++ (to, text) ∷ [])
        ≡ delta_texts codec vs ++ text ∷ []
  unfolding replay_history
  replayed_history to layer text vs =
      messages_to-append to.session (replay_deltas codec to vs ++ []) ((to, text) ∷ [])
      ∙ ap (λ ts. ts ++ messages_to to.session ((to, text) ∷ []))
          (ap (messages_to to.session) (append-nil _) ∙ replayed to vs)
      ∙ ap (λ ts. delta_texts codec vs ++ ts) (last_text to text)

  -- The user receives the history of the layer in order, and then the event that ends it; from then on
  -- the user is among those of the channel.
  pub on_connected_joins :
      (logic : Logic) (to : Connection) (layer : String) (c : Channel) (vs : List DeltaEvent)
      → Dict.find to.channel logic.channels ≡ some c
      → c.history ≡ (layer, vs) ∷ []
      → Absent to.session c.connections
      → let r = on_connected codec logic to in
        let c' = add_connection c to in
        (messages_to to.session r.1 ≡ delta_texts codec vs ++ serialize history_event ∷ [])
        × (Dict.find to.channel r.0.channels ≡ some c')
        × IsMember c' to
        × (layer_history c' layer ≡ vs)
  unfolding on_connected add_connection Dict.find
  on_connected_joins logic to layer c vs here one_layer absent =
      rw (here, on_connected)
        (
          ap
                (λ history.
                  messages_to to.session
                    (replay_history codec to history ++ (to, serialize history_event) ∷ []))
                one_layer
              ∙ replayed_history to layer (serialize history_event) vs,
          find-put_self to.channel (add_connection c to) logic.channels,
          added-IsMember c to absent,
          ap (λ history. get_or [] (Dict.find layer history)) one_layer ∙ ground arith,
        )

  -- The numbers stay valid.
  pub on_deltas-IsValid :
      (logic : Logic) (ss : List Sending) → IsValid logic → IsValid (on_deltas codec logic ss).0
  unfolding on_deltas
  on_deltas-IsValid logic [] valid = valid
  on_deltas-IsValid logic ((sender, v) ∷ ss) valid =
      on_deltas-IsValid (on_delta codec logic sender v).0 ss
        (on_delta-IsValid codec logic sender v valid)
