-- ===== src/Networking/SessionConnection.antt =====
-- Sources/Networking/WebsocketServer.cpp: how a session of the server accepts, reads, writes and ends. An
-- asynchronous operation that was started stays in `pending` until it completes, with or without an
-- error; its handler runs as one step.
use render_studio_kit.Shared.{
  ℕ, String, Bool, true, false, not, List, [], ◌∷◌, ◌++◌, none, some, is_nil, length, ltb,
  if◌then◌else◌,
}
use render_studio_kit.Shared.Options.{take_out}
use render_studio_kit.Networking.WebsocketSession as Queued

pub data Operation : Type 0 where
  run_on_strand accept read write : Operation
  post : String → Operation

-- The calls of IServerLogic with this session
pub data Call : Type 0 where
  connected_call disconnected_call : Call
  message_call : String → Call

pub record Peer : Type 0 where
  pub session : Queued.Session
  pub pending : List Operation
  pub calls : List Call

-- A session that was made for a request, and WebsocketSession::Run
abbrev pub running : Peer
running = record {
  session = record { write_queue = []; connected = false; wire = [] };
  pending = run_on_strand ∷ [];
  calls = [];
}

abbrev pub start : Operation → Peer → Peer
start op p = record p { pending = p.pending ++ op ∷ [] }

abbrev pub notify : Call → Peer → Peer
notify call p = record p { calls = p.calls ++ call ∷ [] }

abbrev pub set_connected : Bool → Peer → Peer
set_connected b p = record p { session = record p.session { connected = b } }

-- The end of a session: mConnected = false, and OnDisconnected
abbrev pub end_session : Peer → Peer
end_session p = notify disconnected_call (set_connected false p)

-- WebsocketSession::Send
unfoldable pub send : String → Peer → Peer
send message p = start (post message) p

-- WebsocketSession::Write
unfoldable pub write_text : String → Peer → Peer
write_text message p =
    let session = Queued.write p.session message in
    let p' = record p { session = session } in
    if ltb 1 (length session.write_queue) then p' else start write p'

-- WebsocketSession::Read
unfoldable pub start_read : Peer → Peer
start_read p = if not p.session.connected then p else start read p

-- WebsocketSession::OnRun
unfoldable pub on_run : Peer → Peer
on_run p = start accept p

-- WebsocketSession::OnAccept
unfoldable pub on_accept : Bool → Peer → Peer
on_accept failed p =
    if failed
    then set_connected false p
    else start_read (notify connected_call (set_connected true p))

-- WebsocketSession::OnRead
unfoldable pub on_read : Bool → String → Peer → Peer
on_read failed message p =
    if not p.session.connected
    then p
    else if failed
    then end_session p
    else start_read (notify (message_call message) p)

-- WebsocketSession::OnWrite
unfoldable pub on_write : Bool → Peer → Peer
on_write failed p =
    let p' = record p { session = Queued.on_write p.session false } in
    if not p.session.connected
    then p
    else if failed
    then end_session p
    else if is_nil p'.session.write_queue
    then p'
    else start write p'

-- The handler that each operation was started with
unfoldable pub complete : Operation → Bool → String → Peer → Peer
complete run_on_strand failed message p = on_run p
complete accept failed message p = on_accept failed p
complete read failed message p = on_read failed message p
complete write failed message p = on_write failed p
complete (post text) failed message p = write_text text p

-- The server sends to the session, or one of the pending operations completes.
pub data Action : Type 0 where
  sending : String → Action
  completing : ℕ → Bool → String → Action

unfoldable pub step : Action → Peer → Peer
step (sending message) p = send message p
step (completing n failed message) p = elim (take_out n p.pending) [
  | none ↦ p
  | some (op, rest) ↦ complete op failed message (record p { pending = rest })
]

unfoldable pub run : List Action → Peer → Peer
run [] p = p
run (action ∷ actions) p = run actions (step action p)
