-- ===== src/Server/Broadcast.antt =====
-- Sources/Server: who receives what when a user sends an edit.
use render_studio_kit.Shared.{
  ℕ, ◌≡◌, ◌≢◌, refl, ◌∙◌, ap, String, List, [], ◌∷◌, ◌++◌, some, ite, arith, map, string_discrete,
  string_key, ℕ_discrete,
}
use render_studio_kit.Shared.Dict
use render_studio_kit.Shared.Dict.{find-put_self}
use render_studio_kit.Usd.{Usd}
use render_studio_kit.Serialization.Api.{
  DeltaEvent, AcknowledgeEvent, Codec, delta_event, acknowledge_event,
}
use render_studio_kit.Server.Channel.{
  Connection, Sent, Channel, send, send_to, layer_history, add_to_history, get_sequence_number,
}
use render_studio_kit.Server.Logic.{Logic, numbered, on_delta}

-- The texts that reach a session, in order
abbrev pub messages_to : ℕ → Sent → List String
messages_to i [] = []
messages_to i ((c, text) ∷ sent) =
    ite (ℕ_discrete c.session i) (text ∷ messages_to i sent) (messages_to i sent)

pub messages_to-append :
    (i : ℕ) (xs ys : Sent) → messages_to i (xs ++ ys) ≡ messages_to i xs ++ messages_to i ys
messages_to-append i [] ys = refl
messages_to-append i ((c, text) ∷ xs) ys = ground (arith, messages_to-append i xs ys)

-- The session is not among the connections.
abbrev pub Absent : ℕ → List Connection → Type 0
Absent i [] = Unit {0}
Absent i (c ∷ cs) = (c.session ≢ i) × Absent i cs

pub send_to-Absent :
    (i : ℕ) (sender text : String) (cs : List Connection)
    → Absent i cs
    → messages_to i (send_to sender text cs) ≡ []
unfolding send_to
send_to-Absent i sender text [] a = refl
send_to-Absent i sender text (c ∷ cs) a = ground (arith, send_to-Absent i sender text cs a.1)

send_to-member :
    (sender text : String) (before after : List Connection) (c : Connection)
    → Absent c.session before
    → Absent c.session after
    → messages_to c.session (send_to sender text (before ++ c ∷ after))
      ≡ ite (string_discrete c.debug_name sender) [] (text ∷ [])
unfolding send_to
send_to-member sender text [] after c b a =
    ground (arith, send_to-Absent c.session sender text after a)
send_to-member sender text (x ∷ before) after c b a =
    ground (arith, send_to-member sender text before after c b.1 a)

module _ ⦃usd : Usd⦄ where
  pub connections-add :
      (c : Channel) (v : DeltaEvent) → (add_to_history c v).connections ≡ c.connections
  unfolding add_to_history
  connections-add c v = refl

  layer_history-add :
      (c : Channel) (v : DeltaEvent)
      → layer_history (add_to_history c v) v.layer ≡ layer_history c v.layer ++ v ∷ []
  unfolding add_to_history
  layer_history-add c v = rw (find-put_self v.layer (layer_history c v.layer ++ v ∷ []) c.history)

module _ ⦃usd : Usd⦄ (codec : Codec) where
  open codec use {serialize}

  -- What the server has to say about an edit: the edit with its number, and the acknowledgement
  abbrev pub delta_text : DeltaEvent → ℕ → String
  delta_text v n = serialize (delta_event (numbered v n))

  abbrev pub acknowledge_text : DeltaEvent → ℕ → String
  acknowledge_text v n =
      let ack : AcknowledgeEvent = record {
        layer = v.layer;
        paths = map (λ u. u.0) v.updates;
        sequence = n;
      } in
      serialize (acknowledge_event ack)

  messages-sent :
      (sender to : Connection) (before after : List Connection) (c : Channel) (v : DeltaEvent)
      (n : ℕ)
      → c.connections ≡ before ++ to ∷ after
      → Absent to.session before
      → Absent to.session after
      → messages_to to.session (
          send_to sender.debug_name (delta_text v n) (add_to_history c (numbered v n)).connections
          ++ (sender, acknowledge_text v n) ∷ [])
        ≡ ite (string_discrete to.debug_name sender.debug_name) [] (delta_text v n ∷ [])
          ++ ite (ℕ_discrete sender.session to.session) (acknowledge_text v n ∷ []) []
  messages-sent sender to before after c v n members b a =
      let text = delta_text v n in
      rw (connections-add c (numbered v n), members)
        (messages_to-append to.session (send_to sender.debug_name text (before ++ to ∷ after)) _
          ∙ ap
              (λ (l : List String).
                l ++ ite (ℕ_discrete sender.session to.session) (acknowledge_text v n ∷ []) [])
              (send_to-member sender.debug_name text before after to b a))

  -- An edit takes the next number of its layer and goes to the end of the layer's history under it.
  -- Of the connections of the channel, each of another user receives the edit with its number, once,
  -- and nothing else; the sender receives the acknowledgement with this number, once, and nothing
  -- else; any other session of the sender's user receives nothing.
  pub on_delta_delivers :
      (logic : Logic) (sender to : Connection) (before after : List Connection) (c : Channel)
      (v : DeltaEvent)
      → Dict.find sender.channel logic.channels ≡ some c
      → c.connections ≡ before ++ to ∷ after
      → Absent to.session before
      → Absent to.session after
      → let (logic', sent) = on_delta codec logic sender v in
        let n = get_sequence_number c v.layer in
        (messages_to to.session sent
          ≡ ite (string_discrete to.debug_name sender.debug_name) [] (delta_text v n ∷ [])
            ++ ite (ℕ_discrete sender.session to.session) (acknowledge_text v n ∷ []) [])
        × ((c' : Channel) × (Dict.find sender.channel logic'.channels ≡ some c')
            × (c'.connections ≡ c.connections)
            × (layer_history c' v.layer ≡ layer_history c v.layer ++ numbered v n ∷ []))
  unfolding on_delta send
  on_delta_delivers logic sender to before after c v e members b a =
      let n = get_sequence_number c v.layer in
      let c' = add_to_history c (numbered v n) in
      let name = sender.channel in
      let sent = send_to sender.debug_name (delta_text v n) c.connections in
      rw (e, on_delta)
        (
          messages-sent sender to before after c v n members b a,
          (
            c',
            find-put_self name c' logic.channels,
            connections-add c (numbered v n),
            layer_history-add c (numbered v n),
          ),
        )
