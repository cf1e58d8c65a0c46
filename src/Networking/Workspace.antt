-- ===== src/Networking/Workspace.antt =====
-- Sources/Networking/Workspace.cpp: the workspace process that keeps files in sync. Whether the port is
-- in use, whether a connection succeeds, whether the process starts, and how Boost.JSON parses a text
-- are parameters. `client` is sClient and whether it is connected, `ping_task` whether sPingTask runs.
use render_studio_kit.Shared.{
  ℕ, zero, suc, ◌+◌, String, Bool, true, false, not, ◌&&◌, ◌||◌, List, [], ◌∷◌, ◌++◌, Option, none,
  some, is_some, is_nil, ite, if◌then◌else◌, string_discrete, get_or,
}
use render_studio_kit.Shared.Options.{◌>>=◌}
use render_studio_kit.Shared.Texts.{Text, codes, contains}
use render_studio_kit.Serialization.Json.{JsonLibrary, at}
use render_studio_kit.Serialization.Events.{Printer}

pub data Role : Type 0 where
  server client : Role

-- RenderStudioNotice::WorkspaceState::State
pub data State : Type 0 where
  idle syncing error other : State

pub data Notice : Type 0 where
  file_updated : String → Notice
  workspace_state : State → Notice
  workspace_connection_changed : Bool → Notice

pub record Workspace : Type 0 where
  pub workspace_url : Text
  pub client : Option Bool
  pub ping_task : Option Bool
  pub last_state : String
  pub connected : Bool
  pub paused : Bool
  pub notices : List Notice

-- What the system answers: IsPortInUse of the guards and of the check for a running workspace, the
-- Connect of every attempt, of which the first is the one to a running workspace, and LaunchWorkspace
pub record System : Type 0 where
  pub guarded_port_in_use : Bool
  pub port_in_use : Bool
  pub connects : ℕ → Bool
  pub launches : Bool

-- sClient->Disconnect()
abbrev pub drop_client : Workspace → Workspace
drop_client w = record w { client = elim w.client [ none ↦ none | some c ↦ some false ] }

-- Whether Connect gives up before it looks for a workspace
unfoldable pub is_refused : System → Role → Workspace → Bool
is_refused system server w = system.guarded_port_in_use
is_refused system client w =
    (contains (codes "127.0.0.1") w.workspace_url || contains (codes "localhost") w.workspace_url)
    && not system.guarded_port_in_use

-- Up to so many attempts, from the given one on
unfoldable pub attempt : System → ℕ → ℕ → Workspace → Workspace
attempt system zero n w = w
attempt system (suc more) n w =
    let w' = record w { client = some (system.connects n) } in
    let rest = attempt system more (n + 1) w' in
    if system.connects n then record w' { ping_task = some true } else rest

-- Launch a new instance, and connect to it
unfoldable pub launch : System → Workspace → Workspace
launch system w = if system.launches then attempt system 5 1 (drop_client w) else w

-- Workspace::Connect
unfoldable pub connect : System → Role → Workspace → Workspace
connect system role w =
    let w1 = drop_client (record w { ping_task = some false }) in
    let found = record w1 { client = some (system.connects 0) } in
    if is_refused system role w1
    then w1
    else if not system.port_in_use
    then launch system w1
    else if system.connects 0
    then record found { ping_task = some true }
    else launch system found

-- Workspace::Disconnect, which needs the client and the task
unfoldable pub disconnect : Workspace → Option Workspace
disconnect w =
    if is_some w.ping_task && is_some w.client
    then some (record (drop_client w) {
      ping_task = some false;
      notices = w.notices ++ workspace_connection_changed false ∷ [];
    })
    else none

-- What WaitIdle waits for
unfoldable pub may_stop_waiting : Workspace → Bool
may_stop_waiting w = ite (string_discrete w.last_state "idle") w.connected false

-- Workspace::IsIdle and IsConnected
unfoldable pub is_idle : Workspace → Bool
is_idle w =
    if is_nil w.workspace_url then true else ite (string_discrete w.last_state "idle") true false

unfoldable pub is_connected : Workspace → Bool
is_connected w = if is_nil w.workspace_url then false else w.connected

-- RenderStudioNotice::WorkspaceState::WorkspaceState
unfoldable pub state_of : String → State
state_of state = ite (string_discrete state "idle") idle (
    ite (string_discrete state "syncing") syncing (ite (string_discrete state "error") error other))

abbrev pub notify : Notice → Workspace → Workspace
notify notice w = record w { notices = w.notices ++ notice ∷ [] }

abbrev pub set_state : String → Workspace → Workspace
set_state state w = record (notify (workspace_state (state_of state)) w) { last_state = state }

abbrev pub set_connected : Bool → Workspace → Workspace
set_connected connected w = record (notify (workspace_connection_changed connected) w) {
  connected = connected;
}

module _ ⦃json : JsonLibrary⦄ where
  open json use {Json, as_object, as_string, as_bool}

  -- boost::json::value_to<std::string>(json.at(key))
  abbrev pub text_at : List (String × Json) → String → Option String
  text_at o key = at o key >>= as_string

  -- The branches of OnMessage; `none` is what is thrown.
  unfoldable pub on_event : String → List (String × Json) → Workspace → Option Workspace
  on_event event o w =
      ite (string_discrete event "Event::FileUpdated")
        (do path ← text_at o "path"; some (notify (file_updated path) w))
        (ite (string_discrete event "Event::StateChanged")
          (do state ← text_at o "state"; some (set_state state w))
          (ite (string_discrete event "Event::Connection")
            (do connected ← at o "connected" >>= as_bool; some (set_connected connected w))
            (ite (string_discrete event "Event::Paused") (some (record w { paused = true })) (
              ite (string_discrete event "Event::Resumed") (some (record w { paused = false }))
                (some w)))))

  -- Logic::OnMessage, which catches what is thrown
  unfoldable pub on_message : Printer json → String → Workspace → Workspace
  on_message printer message w =
      get_or w (do
        j ← printer.parse message
        o ← as_object j
        event ← text_at o "event"
        on_event event o w)
