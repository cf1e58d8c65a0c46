-- ===== src/Networking/Listener.antt =====
-- Sources/Networking/WebsocketServer.cpp: the server that accepts connections, WebsocketServer, and the
-- first request of a connection, HttpSession. An HttpSession has no state of its own, so the operation
-- that it waits for stands for it. A session that is made takes its channel and its user from the target.
use render_studio_kit.Shared.{
  Bool, List, [], ◌∷◌, ◌++◌, Option, none, some, is_nil, if◌then◌else◌, ℕ,
}
use render_studio_kit.Shared.Options.{take_out}
use render_studio_kit.Shared.Texts.{Text}
use render_studio_kit.Networking.SessionNames.{extract_names}
use render_studio_kit.Networking.SessionConnection as Connection

-- The operations that the server and its HttpSessions wait for
pub data Awaited : Type 0 where
  accepting dispatched reading : Awaited

-- What a read gives: the end of the stream, an error, or a request with its target, that asks for an
-- upgrade to a WebSocket or does not
pub data Received : Type 0 where
  end_of_stream read_error : Received
  request : Text → Bool → Received

-- A WebsocketSession with its channel and debug name
pub record OpenedSession : Type 0 where
  pub channel : Text
  pub debug_name : Text
  pub peer : Connection.Peer

pub record Listener : Type 0 where
  pub awaited : List Awaited
  pub sessions : List OpenedSession

-- What open, set_option, bind and listen of the acceptor say: whether they fail
pub record Acceptor : Type 0 where
  pub open_fails : Bool
  pub option_fails : Bool
  pub bind_fails : Bool
  pub listen_fails : Bool

-- WebsocketServer::WebsocketServer; none is an exception.
unfoldable pub start_server : Acceptor → Option Listener
start_server a =
    if a.open_fails
    then none
    else if a.option_fails
    then none
    else if a.bind_fails
    then none
    else if a.listen_fails
    then none
    else some (record { awaited = []; sessions = [] })

abbrev pub await : Awaited → Listener → Listener
await op l = record l { awaited = l.awaited ++ op ∷ [] }

-- WebsocketServer::Accept, and WebsocketServer::Run
unfoldable pub accept_next : Listener → Listener
accept_next l = await accepting l

-- WebsocketServer::OnAccept, with HttpSession::Run
unfoldable pub on_accepted : Bool → Listener → Listener
on_accepted failed l = if failed then l else accept_next (await dispatched l)

-- HttpSession::OnRun and HttpSession::Read
unfoldable pub on_dispatched : Listener → Listener
on_dispatched l = await reading l

-- WebsocketSession::WebsocketSession, and WebsocketSession::Run
unfoldable pub open_session : Text → Text → OpenedSession
open_session endpoint target =
    let names = extract_names target in
    record {
      channel = names.0;
      debug_name = if is_nil names.1 then endpoint else names.1;
      peer = Connection.running;
    }

-- HttpSession::OnRead: a request without an upgrade gets no answer and no further read.
unfoldable pub on_received : Text → Received → Listener → Listener
on_received endpoint end_of_stream l = l
on_received endpoint read_error l = l
on_received endpoint (request target upgrade) l =
    if upgrade then record l { sessions = l.sessions ++ open_session endpoint target ∷ [] } else l

-- How an awaited operation completes: with or without an error, what a read gave, and the remote
-- endpoint of the connection
pub record Completion : Type 0 where
  pub failed : Bool
  pub received : Received
  pub endpoint : Text

unfoldable pub conclude : Awaited → Completion → Listener → Listener
conclude accepting c l = on_accepted c.failed l
conclude dispatched c l = on_dispatched l
conclude reading c l = on_received c.endpoint c.received l

-- The awaited operation at a position completes.
unfoldable pub advance : ℕ → Completion → Listener → Listener
advance n c l = elim (take_out n l.awaited) [
  | none ↦ l
  | some (op, rest) ↦ conclude op c (record l { awaited = rest })
]

unfoldable pub serve : List (ℕ × Completion) → Listener → Listener
serve [] l = l
serve ((n, c) ∷ rest) l = serve rest (advance n c l)
