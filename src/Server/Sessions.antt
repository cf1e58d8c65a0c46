-- ===== src/Server/Sessions.antt =====
-- Sources/Server: which sessions a channel has left when one of them closes.
use render_studio_kit.Shared.{
  ℕ, ◌≡◌, ◌≢◌, refl, ◌∙◌, sym, subst, String, Bool, true, false, List, [], ◌∷◌, ◌++◌, none, some,
  ite, arith, inl, inr, Option-cases, string_discrete, string_key,
}
use render_studio_kit.Shared.Dict
use render_studio_kit.Shared.Dict.{find-put, find-erase}
use render_studio_kit.Usd.{Usd}
use render_studio_kit.Serialization.Api.{DeltaEvent, Codec}
use render_studio_kit.Server.Channel.{
  Connection, send, send_to, remove_named, remove_connection, empty, get_sequence_number,
  add_to_history,
}
use render_studio_kit.Server.Logic.{Logic, numbered, on_disconnected, on_delta}
use render_studio_kit.Server.Broadcast.{
  messages_to, messages_to-append, Absent, send_to-Absent, connections-add, delta_text,
}
use render_studio_kit.Server.Observer.{Sending, on_deltas}

-- Some connection is of the user.
abbrev pub has_user : String → List Connection → Bool
has_user name [] = false
has_user name (c ∷ cs) = ite (string_discrete c.debug_name name) true (has_user name cs)

has_user-remove_named :
    (user name : String) (cs : List Connection)
    → has_user user (remove_named name cs)
      ≡ ite (string_discrete name user) false (has_user user cs)
unfolding remove_named
has_user-remove_named user name [] = ground arith
has_user-remove_named user name (c ∷ cs) = ground (arith, has_user-remove_named user name cs)

remove_named-nil : (name : String) → remove_named name [] ≡ []
unfolding remove_named
remove_named-nil name = refl

remove_named-Absent :
    (i : ℕ) (name : String) (cs : List Connection) → Absent i cs → Absent i (remove_named name cs)
unfolding remove_named
remove_named-Absent i name [] a = tt
remove_named-Absent i name (c ∷ cs) a = ground (arith, remove_named-Absent i name cs a.1)

remove_named-drops :
    (name : String) (before after : List Connection) (c : Connection)
    → c.debug_name ≡ name
    → Absent c.session before
    → Absent c.session after
    → Absent c.session (remove_named name (before ++ c ∷ after))
unfolding remove_named
remove_named-drops name [] after c e b a =
    ground (arith, remove_named-Absent c.session name after a)
remove_named-drops name (x ∷ before) after c e b a =
    ground (arith, remove_named-drops name before after c e b.1 a)

module _ ⦃usd : Usd⦄ where
  -- The connections of a channel; a channel that is not there has none.
  abbrev pub connections_of : Logic → String → List Connection
  connections_of logic name = elim (Dict.find name logic.channels) [
    | none ↦ []
    | some c ↦ c.connections
  ]

  connections_of-on_disconnected :
      (logic : Logic) (connection : Connection) (name : String)
      → connections_of (on_disconnected logic connection) name
        ≡ ite
            (string_discrete connection.channel name)
            (remove_named connection.debug_name (connections_of logic name))
            (connections_of logic name)
  unfolding on_disconnected remove_connection empty
  connections_of-on_disconnected logic connection name =
      elim (Option-cases (Dict.find connection.channel logic.channels)) [
        | inl e ↦ ground (arith, remove_named-nil connection.debug_name)
        | inr (c, e) ↦ ground (
          arith,
          find-erase name connection.channel logic.channels,
          find-put name connection.channel (remove_connection c connection) logic.channels,
        )
      ]

  -- Closing a session takes every session of the same user out of its channel, and no other user.
  on_disconnected_users :
      (logic : Logic) (connection : Connection) (name user : String)
      → has_user user (connections_of (on_disconnected logic connection) name)
        ≡ ite
            (string_discrete connection.channel name)
            (ite
              (string_discrete connection.debug_name user)
              false
              (has_user user (connections_of logic name)))
            (has_user user (connections_of logic name))
  on_disconnected_users logic connection name user = ground (
    arith,
    connections_of-on_disconnected logic connection name,
    has_user-remove_named user connection.debug_name (connections_of logic name),
  )

  silent_delta :
      (codec : Codec) (logic : Logic) (editor : Connection) (v : DeltaEvent) (i : ℕ)
      → Absent i (connections_of logic editor.channel)
      → editor.session ≢ i
      → messages_to i (on_delta codec logic editor v).1 ≡ []
  unfolding on_delta send
  silent_delta codec logic editor v i a other =
      elim (Option-cases (Dict.find editor.channel logic.channels)) [
        | inl e ↦ rw (e, on_delta)
        | inr (c, e) ↦
            let n = get_sequence_number c v.layer in
            let members : connections_of logic editor.channel ≡ c.connections = ground arith in
            let text = delta_text codec v n in
            let sent = send_to editor.debug_name text c.connections in
            rw (e, on_delta, connections-add c (numbered v n))
              (messages_to-append i sent _
                ∙ ground (
                  arith,
                  send_to-Absent i editor.debug_name text c.connections
                      (subst (Absent i) members a),
                ))
      ]

  connections_of-on_delta :
      (codec : Codec) (logic : Logic) (editor : Connection) (v : DeltaEvent) (name : String)
      → connections_of (on_delta codec logic editor v).0 name ≡ connections_of logic name
  unfolding on_delta
  connections_of-on_delta codec logic editor v name =
      elim (Option-cases (Dict.find editor.channel logic.channels)) [
        | inl e ↦ rw (e, on_delta)
        | inr (c, e) ↦
            let n = get_sequence_number c v.layer in
            ground (
              arith,
              connections-add c (numbered v n),
              find-put name editor.channel (add_to_history c (numbered v n)) logic.channels,
            )
      ]

  -- The edits are sent to the channel, and by other sessions.
  abbrev pub AllFromOthers : ℕ → String → List Sending → Type 0
  AllFromOthers i channel [] = Unit {0}
  AllFromOthers i channel ((editor, v) ∷ ss) =
      (editor.channel ≡ channel) × (editor.session ≢ i) × AllFromOthers i channel ss

  silent_deltas :
      (codec : Codec) (logic : Logic) (channel : String) (i : ℕ) (ss : List Sending)
      → Absent i (connections_of logic channel)
      → AllFromOthers i channel ss
      → messages_to i (on_deltas codec logic ss).1 ≡ []
  unfolding on_deltas
  silent_deltas codec logic channel i [] a others = refl
  silent_deltas codec logic channel i ((editor, v) ∷ ss) a (here, ne, others) =
      let first = on_delta codec logic editor v in
      messages_to-append i first.1 (on_deltas codec first.0 ss).1
      ∙ ground (
        arith,
        silent_delta codec logic editor v i
            (subst (λ n. Absent i (connections_of logic n)) (sym here) a) ne,
        silent_deltas codec first.0 channel i ss
            (subst (Absent i) (sym (connections_of-on_delta codec logic editor v channel)) a)
            others,
      )

  -- The fault of the removal by name: a second session of the user is still open when the first one is
  -- disconnected, and was once among the connections of the channel. None of the edits that other
  -- sessions of the channel send from then on reaches it, however many they are.
  pub on_disconnected_silences :
      (codec : Codec) (logic : Logic) (closed other : Connection) (before after : List Connection)
      (ss : List Sending)
      → connections_of logic closed.channel ≡ before ++ other ∷ after
      → Absent other.session before
      → Absent other.session after
      → other.debug_name ≡ closed.debug_name
      → AllFromOthers other.session closed.channel ss
      → messages_to other.session (on_deltas codec (on_disconnected logic closed) ss).1 ≡ []
  on_disconnected_silences codec logic closed other before after ss e b a same others =
      let left : connections_of (on_disconnected logic closed) closed.channel
          ≡ remove_named closed.debug_name (before ++ other ∷ after) =
        ground (arith, connections_of-on_disconnected logic closed closed.channel) in
      silent_deltas codec (on_disconnected logic closed) closed.channel other.session ss
        (subst (Absent other.session) (sym left)
          (remove_named-drops closed.debug_name before after other same b a))
        others
