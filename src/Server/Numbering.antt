-- ===== src/Server/Numbering.antt =====
-- Sources/Server: the numbers in the history of every layer of every channel.
use render_studio_kit.Shared.{
  ℕ, ◌+◌, ◌%◌, ◌≡◌, ◌≢◌, ◌∙◌, ap, String, List, [], ◌∷◌, ◌++◌, some, arith, inl, inr, get_or,
  length, size_mod, Option-cases, Bool-cases, false, string_key,
}
use render_studio_kit.Shared.Dict
use render_studio_kit.Shared.Dict.{find-put, find-All, put-All, erase-All}
use render_studio_kit.Usd.{Usd}
use render_studio_kit.Serialization.Api.{
  DeltaEvent, ReloadEvent, Body, Codec, delta, acknowledge, history, reload,
}
use render_studio_kit.Server.Channel.{
  Connection, Channel, create, add_connection, remove_connection, layer_history, add_to_history,
  clear_history, empty, get_sequence_number,
}
use render_studio_kit.Server.Logic.{
  Logic, init, numbered, on_connected, on_disconnected, on_delta, on_reload, on_body, on_event,
  on_message,
}

module _ ⦃usd : Usd⦄ where
  -- The deltas have the numbers k + 1, k + 2 and so on, as values of std::size_t.
  abbrev pub NumberedFrom : ℕ → List DeltaEvent → Type 0
  NumberedFrom k [] = Unit {0}
  NumberedFrom k (v ∷ vs) = (v.sequence ≡ some ((k + 1) % size_mod)) × NumberedFrom (k + 1) vs

  NumberedFrom-append :
      (k : ℕ) (vs : List DeltaEvent) (w : DeltaEvent)
      → NumberedFrom k vs
      → w.sequence ≡ some ((k + length vs + 1) % size_mod)
      → NumberedFrom k (vs ++ w ∷ [])
  NumberedFrom-append k [] w h e = (e ∙ ap (λ (n : ℕ). some ((n + 1) % size_mod)) (omega arith), tt)
  NumberedFrom-append k (v ∷ vs) w h e = (
    h.0,
    NumberedFrom-append (k + 1) vs w h.1
        (e ∙ ap (λ (n : ℕ). some ((n + 1) % size_mod)) (omega arith)),
  )

  abbrev pub IsNumbered : List DeltaEvent → Type 0
  IsNumbered = NumberedFrom 0

  -- A channel in use has users, and the histories of its layers are numbered from 1.
  pub record IsValidChannel (c : Channel) : Type 0 where
    pub used : c.connections ≢ []
    pub ordered : Dict.All IsNumbered c.history

  abbrev pub IsValid : Logic → Type 0
  IsValid logic = Dict.All IsValidChannel logic.channels

  pub layer_history-IsNumbered :
      (c : Channel) (layer : String)
      → Dict.All IsNumbered c.history
      → IsNumbered (layer_history c layer)
  layer_history-IsNumbered c layer h = elim (Option-cases (Dict.find layer c.history)) [
    | inl e ↦ rw (e, NumberedFrom) tt
    | inr (vs, e) ↦ rw e (find-All IsNumbered layer vs c.history h e)
  ]

  -- The number given out next is one more than the length of the history.
  pub get_sequence_number_lem :
      (c : Channel) (layer : String)
      → get_sequence_number c layer ≡ (length (layer_history c layer) + 1) % size_mod
  unfolding get_sequence_number
  get_sequence_number_lem c layer = ground arith

  add_to_history-ordered :
      (c : Channel) (v : DeltaEvent)
      → Dict.All IsNumbered c.history
      → Dict.All IsNumbered (add_to_history c (numbered v (get_sequence_number c v.layer))).history
  unfolding add_to_history
  add_to_history-ordered c v h =
      let n = get_sequence_number c v.layer in
      let old = layer_history c v.layer in
      put-All IsNumbered v.layer (old ++ numbered v n ∷ []) c.history
        (NumberedFrom-append 0 old (numbered v n) (layer_history-IsNumbered c v.layer h) (
          ap some (get_sequence_number_lem c v.layer)
          ∙ ap (λ (m : ℕ). some ((m + 1) % size_mod)) (omega arith)))
        h

  clear_history-ordered :
      (c : Channel) (layer : String)
      → Dict.All IsNumbered c.history
      → Dict.All IsNumbered (clear_history c layer).history
  unfolding clear_history
  clear_history-ordered c layer h = ground (arith, put-All IsNumbered layer [] c.history tt h)

  empty-ne-nil : (c : Channel) → empty c ≡ false → c.connections ≢ []
  unfolding empty
  empty-ne-nil c h = ground arith

  clear_history-used :
      (c : Channel) (layer : String) → c.connections ≢ [] → (clear_history c layer).connections ≢ []
  unfolding clear_history
  clear_history-used c layer h = ground arith

  append-ne-nil : (xs : List Connection) (x : Connection) → (xs ++ x ∷ []) ≢ []
  append-ne-nil [] x e = cc
  append-ne-nil (y ∷ ys) x e = cc

  put-IsValid :
      (name : String) (c : Channel) (logic : Logic)
      → IsValidChannel c
      → IsValid logic
      → IsValid (record { channels = Dict.put name c logic.channels })
  put-IsValid name c logic v i = put-All IsValidChannel name c logic.channels v i

  pub found-IsValid :
      (name : String) (c : Channel) (logic : Logic)
      → IsValid logic
      → Dict.find name logic.channels ≡ some c
      → IsValidChannel c
  found-IsValid name c logic i e = find-All IsValidChannel name c logic.channels i e

  module _ (codec : Codec) where
    pub on_connected-IsValid :
        (logic : Logic) (connection : Connection)
        → IsValid logic
        → IsValid (on_connected codec logic connection).0
    unfolding on_connected add_connection create
    on_connected-IsValid logic connection i =
        let name = connection.channel in
        let c = get_or (create name) (Dict.find name logic.channels) in
        put-IsValid name (add_connection c connection) logic
          (record {
            used = append-ne-nil c.connections connection;
            ordered = elim (Option-cases (Dict.find name logic.channels)) [
              | inl e ↦ rw e tt
              | inr (d, e) ↦ rw e (found-IsValid name d logic i e).ordered
            ];
          })
          i

    on_disconnected-IsValid :
        (logic : Logic) (connection : Connection)
        → IsValid logic
        → IsValid (on_disconnected logic connection)
    unfolding on_disconnected
    on_disconnected-IsValid logic connection i =
        let name = connection.channel in
        elim (Option-cases (Dict.find name logic.channels)) [
          | inl e ↦ rw (e, on_disconnected) i
          | inr (c, e) ↦
              let v = found-IsValid name c logic i e in
              let c' = remove_connection c connection in
              let ordered : Dict.All IsNumbered c'.history =
                unfold remove_connection in v.ordered in
              elim (Bool-cases (empty c')) [
                | inl none_left ↦
                    rw (e, on_disconnected, none_left)
                      (erase-All IsValidChannel name logic.channels i)
                | inr some_left ↦
                    rw (e, on_disconnected, some_left)
                      (put-IsValid name c' logic
                        (record { used = empty-ne-nil c' some_left; ordered = ordered }) i)
              ]
        ]

    pub on_delta-IsValid :
        (logic : Logic) (connection : Connection) (v : DeltaEvent)
        → IsValid logic
        → IsValid (on_delta codec logic connection v).0
    unfolding on_delta
    on_delta-IsValid logic connection v i =
        let name = connection.channel in
        elim (Option-cases (Dict.find name logic.channels)) [
          | inl e ↦ rw (e, on_delta) i
          | inr (c, e) ↦
              let k = found-IsValid name c logic i e in
              let c' = add_to_history c (numbered v (get_sequence_number c v.layer)) in
              rw (e, on_delta)
                (put-IsValid name c' logic
                  (record {
                    used = unfold add_to_history in k.used;
                    ordered = add_to_history-ordered c v k.ordered;
                  })
                  i)
        ]

    on_reload-IsValid :
        (logic : Logic) (connection : Connection) (v : ReloadEvent)
        → IsValid logic
        → IsValid (on_reload codec logic connection v).0
    unfolding on_reload
    on_reload-IsValid logic connection v i =
        let name = connection.channel in
        elim (Option-cases (Dict.find name logic.channels)) [
          | inl e ↦ rw (e, on_reload) i
          | inr (c, e) ↦
              let k = found-IsValid name c logic i e in
              rw (e, on_reload)
                (put-IsValid name (clear_history c v.layer) logic
                  (record {
                    used = clear_history-used c v.layer k.used;
                    ordered = clear_history-ordered c v.layer k.ordered;
                  })
                  i)
        ]

    on_body-IsValid :
        (logic : Logic) (connection : Connection) (b : Body)
        → IsValid logic
        → IsValid (on_body codec logic connection b).0
    unfolding on_body
    on_body-IsValid logic connection (delta v) i = on_delta-IsValid logic connection v i
    on_body-IsValid logic connection history i = i
    on_body-IsValid logic connection (acknowledge v) i = i
    on_body-IsValid logic connection (reload v) i = on_reload-IsValid logic connection v i

    on_message-IsValid :
        (logic : Logic) (connection : Connection) (message : String)
        → IsValid logic
        → IsValid (on_message codec logic connection message).0
    unfolding on_message on_event
    on_message-IsValid logic connection message i =
        elim (Option-cases (codec.parse_event message)) [
          | inl e ↦ rw (e, on_event) i
          | inr (v, e) ↦ rw (e, on_event) (on_body-IsValid logic connection v.body i)
        ]

    -- What can happen to the server, in any order
    pub data Reach : Logic → Type 0 where
      started : Reach init
      joins :
          {logic : Logic} (connection : Connection)
          → Reach logic
          → Reach (on_connected codec logic connection).0
      leaves :
          {logic : Logic} (connection : Connection)
          → Reach logic
          → Reach (on_disconnected logic connection)
      says :
          {logic : Logic} (connection : Connection) (message : String)
          → Reach logic
          → Reach (on_message codec logic connection message).0

    -- After any history of connections, disconnections and messages every channel has a user, and
    -- the history of every layer of a channel has the numbers 1, 2, 3 and so on, without a gap.
    pub Reach-IsValid : {logic : Logic} → Reach logic → IsValid logic
    Reach-IsValid started = tt
    Reach-IsValid (joins connection r) = on_connected-IsValid _ connection (Reach-IsValid r)
    Reach-IsValid (leaves connection r) = on_disconnected-IsValid _ connection (Reach-IsValid r)
    Reach-IsValid (says connection message r) =
        on_message-IsValid _ connection message (Reach-IsValid r)
