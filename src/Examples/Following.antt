-- ===== src/Examples/Following.antt =====
-- The theorem on the server and a client together at a concrete input.
use render_studio_kit.Shared.{
  ℕ, String, ◌≡◌, refl, ap, true, [], ◌∷◌, none, some, arith, length, ite, string_key,
  string_discrete, ℕ_discrete,
}
use render_studio_kit.Shared.Dict
use render_studio_kit.Shared.Texts.{Text, codes}
use render_studio_kit.Data.Layer.{forwarding, forwarding-Forwards}
use render_studio_kit.Serialization.Api.{DeltaEvent, Codec, Body, delta, delta_event, history_event}
use render_studio_kit.Server.Channel.{
  Connection, Channel, add_connection, add_to_history, get_sequence_number,
}
use render_studio_kit.Server.Logic.{Logic, on_connected, on_delta}
use render_studio_kit.Server.Observer.{on_deltas}
use render_studio_kit.FileFormat.Events.{receive}
use render_studio_kit.FileFormat.Following.{server_history, followed, Applies, follower_catches_up}
use render_studio_kit.Examples.World.{world, layer_data}
use render_studio_kit.Examples.Live.{first_edit, second_edit, storage, bob, joined, number_text}

abbrev event_name : Body → String
event_name (delta v) = number_text v.sequence
event_name _ = "history"

abbrev codec : Codec
codec = record {
  serialize = λ e. event_name e.body;
  can_serialize = λ e. true;
  parse_event = λ text.
      ite (string_discrete text "first") (some (delta_event first_edit))
        (ite (string_discrete text "second") (some (delta_event second_edit)) (some history_event));
}

abbrev first_code : Text → ℕ
first_code [] = 0
first_code (c ∷ s) = c

abbrev ann : Connection
ann = record { session = 1; debug_name = "ann"; channel = "room" }

-- Ann has made one edit, and makes another after Bob has joined.
abbrev room : Channel
room = record { history = ("scene", first_edit ∷ []) ∷ []; connections = ann ∷ []; name = "room" }

abbrev one_room : Logic
one_room = record { channels = ("room", room) ∷ [] }

abbrev next_edit : DeltaEvent
next_edit = record second_edit { sequence = none }

follower_catches_up_example :
    (length
        (server_history codec (followed codec one_room bob ((ann, next_edit) ∷ [])).0 bob "scene")
      ≡ 2)
    × Applies codec storage "bob" forwarding
        (receive codec joined (followed codec one_room bob ((ann, next_edit) ∷ [])).1)
        "scene"
        layer_data
        (server_history codec (followed codec one_room bob ((ann, next_edit) ∷ [])).0 bob "scene")
unfolding string_discrete ℕ_discrete Dict.find Dict.put on_connected add_connection on_deltas
    on_delta add_to_history get_sequence_number
follower_catches_up_example =
    follower_catches_up codec storage "bob" forwarding joined "scene" layer_data one_room bob room
      (first_edit ∷ []) ((ann, next_edit) ∷ []) forwarding-Forwards refl
      (record {
        one_layer = refl;
        none_applied = refl;
        none_queued = refl;
        client = refl;
        no_deltas = refl;
        no_acknowledges = refl;
        no_reloads = refl;
      })
      (record { used = λ e. cc e; ordered = ((refl, tt), tt) }, tt) refl refl
      ((λ e. omega arith), tt) (refl, tt)
      (
        record {
          same_channel = refl;
          other_user =
              λ e. (let p : 98 ≡ 97 = ap (λ s. first_code (codes s)) e in omega (arith, p));
          other_session = λ e. omega arith;
          same_layer = refl;
        },
        tt,
      )
      (omega arith) (refl, (refl, tt))
