-- ===== src/Server/Observer.antt =====
-- Sources/Server: what one user receives while other users edit a layer.
use mathlib.Core.List.{append-nil, append_assoc}
use render_studio_kit.Shared.{
  suc, length, subst, ◌≡◌, ◌≢◌, refl, ◌∙◌, sym, ap, String, List, [], ◌∷◌, ◌++◌, some, ite, arith,
  string_discrete, string_key, ℕ_discrete,
}
use render_studio_kit.Shared.Dict
use render_studio_kit.Usd.{Usd}
use render_studio_kit.Serialization.Api.{DeltaEvent, Codec, delta_event}
use render_studio_kit.Server.Channel.{Connection, Sent, Channel, layer_history, get_sequence_number}
use render_studio_kit.Server.Logic.{Logic, numbered, on_delta}
use render_studio_kit.Server.Broadcast.{
  messages_to, messages_to-append, Absent, delta_text, acknowledge_text, on_delta_delivers,
}

module _ ⦃usd : Usd⦄ where
  -- An edit with the connection that sends it
  abbrev pub Sending : Type 0
  Sending = Connection × DeltaEvent

  -- The sender is another user in the same channel, and edits the layer.
  pub record IsOther (to : Connection) (layer : String) (s : Sending) : Type 0 where
    pub same_channel : s.0.channel ≡ to.channel
    pub other_user : to.debug_name ≢ s.0.debug_name
    pub other_session : s.0.session ≢ to.session
    pub same_layer : s.1.layer ≡ layer

  abbrev pub AllOther : Connection → String → List Sending → Type 0
  AllOther to layer [] = Unit {0}
  AllOther to layer (s ∷ ss) = IsOther to layer s × AllOther to layer ss

  -- All edits are of one layer.
  abbrev pub OfLayer : String → List DeltaEvent → Type 0
  OfLayer layer [] = Unit {0}
  OfLayer layer (v ∷ vs) = (v.layer ≡ layer) × OfLayer layer vs

  -- The connection is once among those of the channel.
  pub record IsMember (c : Channel) (to : Connection) : Type 0 where
    pub before : List Connection
    pub after : List Connection
    pub members : c.connections ≡ before ++ to ∷ after
    pub absent_before : Absent to.session before
    pub absent_after : Absent to.session after

  module _ (codec : Codec) where
    -- The handlers of the edits, one after the other
    unfoldable pub on_deltas : Logic → List Sending → Logic × Sent
    on_deltas logic [] = (logic, [])
    on_deltas logic ((sender, v) ∷ rest) =
        let first = on_delta codec logic sender v in
        let others = on_deltas first.0 rest in (others.0, first.1 ++ others.1)

    -- The texts of edits
    abbrev pub delta_texts : List DeltaEvent → List String
    delta_texts [] = []
    delta_texts (v ∷ vs) = codec.serialize (delta_event v) ∷ delta_texts vs

    -- What one edit of another user leads to
    abbrev Observed : Logic → Connection → String → Channel → Sending → Type 0
    Observed logic to layer c s =
        let r = on_delta codec logic s.0 s.1 in
        let w = numbered s.1 (get_sequence_number c layer) in
        (messages_to to.session r.1 ≡ delta_texts (w ∷ []))
        × ((c' : Channel) × (Dict.find to.channel r.0.channels ≡ some c')
            × (c'.connections ≡ c.connections)
            × (layer_history c' layer ≡ layer_history c layer ++ w ∷ []))

    only_edit :
        (to sender : Connection) (text ack : String)
        → to.debug_name ≢ sender.debug_name
        → sender.session ≢ to.session
        → ite (string_discrete to.debug_name sender.debug_name) [] (text ∷ [])
            ++ ite (ℕ_discrete sender.session to.session) (ack ∷ []) []
          ≡ text ∷ []
    only_edit to sender text ack other away = ground arith

    one_edit :
        (logic : Logic) (to : Connection) (layer : String) (c : Channel) (s : Sending)
        → Dict.find to.channel logic.channels ≡ some c
        → IsMember c to
        → IsOther to layer s
        → Observed logic to layer c s
    one_edit logic to layer c (sender, v) here member other =
        let found = ap (λ n. Dict.find n logic.channels) other.same_channel ∙ here in
        let (said, (c', there, same, grown)) =
          on_delta_delivers codec logic sender to member.before member.after c v found
            member.members member.absent_before member.absent_after in
        let n = get_sequence_number c v.layer in
        subst (λ l. Observed logic to l c (sender, v)) other.same_layer
          (
            said
                ∙ only_edit to sender (delta_text codec v n) (acknowledge_text codec v n)
                    other.other_user other.other_session,
            (
              c',
              sym (
                    ap (λ m. Dict.find m (on_delta codec logic sender v).0.channels)
                      other.same_channel)
                  ∙ there,
              same,
              grown,
            ),
          )

    -- Other users edit a layer, one after the other. A user of the channel receives, in order, exactly
    -- the edits that the history of the layer gains, with their numbers.
    pub observer_receives :
        (logic : Logic) (to : Connection) (layer : String) (c : Channel) (ss : List Sending)
        → Dict.find to.channel logic.channels ≡ some c
        → IsMember c to
        → AllOther to layer ss
        → let r = on_deltas logic ss in
          (ws : List DeltaEvent) × (c' : Channel) × (Dict.find to.channel r.0.channels ≡ some c')
          × (layer_history c' layer ≡ layer_history c layer ++ ws)
          × (messages_to to.session r.1 ≡ delta_texts ws)
          × (length ws ≡ length ss)
          × OfLayer layer ws
    unfolding on_deltas
    observer_receives logic to layer c [] here member others =
        ([], c, here, sym (append-nil _), refl, refl, tt)
    observer_receives logic to layer c (s ∷ ss) here member others =
        let (said, (c1, there, same, grown)) = one_edit logic to layer c s here member others.0 in
        let member1 : IsMember c1 to = record {
          before = member.before;
          after = member.after;
          members = same ∙ member.members;
          absent_before = member.absent_before;
          absent_after = member.absent_after;
        } in
        let r1 = on_delta codec logic s.0 s.1 in
        let w = numbered s.1 (get_sequence_number c layer) in
        let (ws, c2, found, history, texts, size, same_layer) =
          observer_receives r1.0 to layer c1 ss there member1 others.1 in
        (
          w ∷ ws,
          c2,
          found,
          history ∙ ap (λ vs. vs ++ ws) grown ∙ append_assoc (layer_history c layer) (w ∷ []) ws,
          messages_to-append to.session r1.1 (on_deltas r1.0 ss).1
              ∙ ap (λ ts. ts ++ messages_to to.session (on_deltas r1.0 ss).1) said
              ∙ ap (λ ts. codec.serialize (delta_event w) ∷ ts) texts,
          ap suc size,
          (others.0.same_layer, same_layer),
        )
