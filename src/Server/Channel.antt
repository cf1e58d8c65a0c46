-- ===== src/Server/Channel.antt =====
-- Sources/Server/Channel.cpp: the users of one channel and the history of its layers. Sending to a
-- connection is a value, the list of the connections with the texts sent to them, in order.
use render_studio_kit.Shared.{
  ℕ, ◌+◌, ◌%◌, String, Bool, List, [], ◌∷◌, ◌++◌, none, some, ite, is_nil, get_or, length, size_mod,
  string_discrete, string_key,
}
use render_studio_kit.Shared.Dict
use render_studio_kit.Usd.{Usd}
use render_studio_kit.Serialization.Api.{DeltaEvent}

-- WebsocketSession as the server logic sees it; `session` tells two objects apart.
pub record Connection : Type 0 where
  pub session : ℕ
  pub debug_name : String
  pub channel : String

abbrev pub Sent : Type 0
Sent = List (Connection × String)

-- remove_if: the debug name decides
unfoldable pub remove_named : String → List Connection → List Connection
remove_named name [] = []
remove_named name (entry ∷ entries) =
    ite (string_discrete entry.debug_name name) (remove_named name entries)
      (entry ∷ remove_named name entries)

-- The loop of Send, which skips the sender by the debug name
unfoldable pub send_to : String → String → List Connection → Sent
send_to sender message [] = []
send_to sender message (entry ∷ entries) =
    ite (string_discrete entry.debug_name sender) (send_to sender message entries)
      ((entry, message) ∷ send_to sender message entries)

module _ ⦃usd : Usd⦄ where
  pub record Channel : Type 0 where
    pub history : List (String × List DeltaEvent)
    pub connections : List Connection
    pub name : String

  -- Channel::Channel
  unfoldable pub create : String → Channel
  create name = record { history = []; connections = []; name = name }

  unfoldable pub add_connection : Channel → Connection → Channel
  add_connection c connection = record c { connections = c.connections ++ connection ∷ [] }

  unfoldable pub remove_connection : Channel → Connection → Channel
  remove_connection c connection = record c {
    connections = remove_named connection.debug_name c.connections;
  }

  unfoldable pub send : Channel → Connection → String → Sent
  send c connection message = send_to connection.debug_name message c.connections

  abbrev pub layer_history : Channel → String → List DeltaEvent
  layer_history c layer = get_or [] (Dict.find layer c.history)

  unfoldable pub add_to_history : Channel → DeltaEvent → Channel
  add_to_history c v = record c {
    history = Dict.put v.layer (layer_history c v.layer ++ v ∷ []) c.history;
  }

  unfoldable pub clear_history : Channel → String → Channel
  clear_history c layer = elim (Dict.find layer c.history) [
    | none ↦ c
    | some old ↦ record c { history = Dict.put layer [] c.history }
  ]

  unfoldable pub empty : Channel → Bool
  empty c = is_nil c.connections

  -- mHistory.at(layer).size() + 1, of std::size_t
  unfoldable pub get_sequence_number : Channel → String → ℕ
  get_sequence_number c layer = elim (Dict.find layer c.history) [
    | none ↦ 1
    | some deltas ↦ (length deltas + 1) % size_mod
  ]
