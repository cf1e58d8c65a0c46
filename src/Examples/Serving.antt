-- ===== src/Examples/Serving.antt =====
-- The theorems on the server at concrete inputs.
use render_studio_kit.Shared.{
  ◌≡◌, refl, true, [], ◌∷◌, none, some, arith, string_key, string_discrete, ℕ_discrete,
}
use render_studio_kit.Shared.Dict
use render_studio_kit.Serialization.Api.{DeltaEvent, Codec, delta_event}
use render_studio_kit.Server.Channel.{Connection, Channel, layer_history, get_sequence_number}
use render_studio_kit.Server.Logic.{
  Logic, init, numbered, on_connected, on_disconnected, on_delta, on_message,
}
use render_studio_kit.Server.Numbering.{IsValid, started, joins, says, Reach-IsValid}
use render_studio_kit.Server.Broadcast.{messages_to, on_delta_delivers}
use render_studio_kit.Server.Observer.{on_deltas}
use render_studio_kit.Server.Sessions.{on_disconnected_silences}
use render_studio_kit.Examples.World.{number, world}

-- Ann has two sessions, and Bob one.
abbrev ann : Connection
ann = record { session = 1; debug_name = "ann"; channel = "room" }

abbrev ann_again : Connection
ann_again = record { session = 2; debug_name = "ann"; channel = "room" }

abbrev bob : Connection
bob = record { session = 3; debug_name = "bob"; channel = "room" }

abbrev room : Channel
room = record { history = []; connections = ann ∷ ann_again ∷ bob ∷ []; name = "room" }

abbrev one_room : Logic
one_room = record { channels = ("room", room) ∷ [] }

abbrev edit : DeltaEvent
edit = record {
  layer = "scene";
  user = "ann";
  sequence = none;
  updates = (1, record { spec_type = 2; fields = (7, number 70) ∷ [] }) ∷ [];
}

-- Every event is written as its name, and every text is read as the edit.
abbrev codec : Codec
codec = record {
  serialize = λ e. e.event;
  can_serialize = λ e. true;
  parse_event = λ text. some (delta_event edit);
}

Reach-IsValid_example : IsValid (on_message codec (on_connected codec init ann).0 ann "text").0
Reach-IsValid_example = Reach-IsValid codec (says ann "text" (joins ann started))

-- Bob receives Ann's edit.
on_delta_delivers_example :
    let (logic', sent) = on_delta codec one_room ann edit in
    (messages_to 3 sent ≡ "Delta::Event" ∷ [])
    × ((c' : Channel) × (Dict.find "room" logic'.channels ≡ some c')
        × (c'.connections ≡ room.connections)
        × (layer_history c' "scene" ≡ numbered edit (get_sequence_number room "scene") ∷ []))
unfolding Dict.find string_discrete ℕ_discrete
on_delta_delivers_example =
    on_delta_delivers codec one_room ann bob (ann ∷ ann_again ∷ []) [] room edit refl refl
      (omega arith) tt

-- Ann's second session does not hear of Bob's two edits once her first one is closed.
on_disconnected_silences_example :
    messages_to 2
      (on_deltas codec (on_disconnected one_room ann) ((bob, edit) ∷ (bob, edit) ∷ [])).1
    ≡ []
unfolding Dict.find string_discrete
on_disconnected_silences_example =
    on_disconnected_silences codec one_room ann ann_again (ann ∷ []) (bob ∷ [])
      ((bob, edit) ∷ (bob, edit) ∷ []) refl (omega arith) (omega arith) refl
      (refl, omega arith, (refl, omega arith, tt))
