-- ===== src/Networking/ClientConnection.antt =====
-- Sources/Networking/WebsocketClient.cpp: how the client connects, keeps the connection alive, reads,
-- writes and closes. An asynchronous operation that was started stays in `pending` until it
-- completes, with or without an error; its handler runs as one step. A promise is a number, and
-- `results` lists the calls of set_value. Naming the host to SSL is assumed to succeed.
use render_studio_kit.Shared.{
  ℕ, ◌+◌, String, Bool, true, false, not, ◌&&◌, List, [], ◌∷◌, ◌++◌, none, some, is_nil, length,
  ltb, if◌then◌else◌, ite, string_discrete,
}
unfoldable pub use render_studio_kit.Shared.Options.{take_out}
use render_studio_kit.Networking.WebsocketClient as Queued

-- What was started: each step of connecting and the closing hold the promise that they keep.
pub data Operation : Type 0 where
  resolve connect_tcp handshake_ssl handshake_websocket close : ℕ → Operation
  ping wait read write : Operation
  post : String → Operation

-- The calls of IClientLogic
pub data Call : Type 0 where
  connected_call disconnected_call : Call
  message_call : String → Call

pub record Socket : Type 0 where
  pub client : Queued.Client
  pub ssl : Bool
  pub pending : List Operation
  pub next_promise : ℕ
  pub results : List (ℕ × Bool)
  pub calls : List Call

abbrev pub created : Socket
created = record {
  client = Queued.created;
  ssl = false;
  pending = [];
  next_promise = 0;
  results = [];
  calls = [];
}

abbrev pub start : Operation → Socket → Socket
start op s = record s { pending = s.pending ++ op ∷ [] }

abbrev pub notify : Call → Socket → Socket
notify call s = record s { calls = s.calls ++ call ∷ [] }

abbrev pub set_value : ℕ → Bool → Socket → Socket
set_value promise value s = record s { results = s.results ++ (promise, value) ∷ [] }

abbrev pub set_connected : Bool → Socket → Socket
set_connected b s = record s { client = record s.client { connected = b } }

-- WebsocketClient::Connect
unfoldable pub connect : Bool → Socket → Socket
connect ssl s =
    start (resolve s.next_promise) (record s { ssl = ssl; next_promise = s.next_promise + 1 })

-- WebsocketClient::Disconnect. The handler of a cancelled timer still runs, with an error.
unfoldable pub disconnect : Socket → Socket
disconnect s =
    let promise = s.next_promise in
    let s' = record s { next_promise = promise + 1 } in
    set_connected false (
      if s.client.connected
      then start (close promise) s'
      else set_value promise true (notify disconnected_call s'))

-- WebsocketClient::Send
unfoldable pub send : String → Socket → Socket
send message s = start (post message) s

-- WebsocketClient::Write
unfoldable pub write_text : String → Socket → Socket
write_text message s =
    let client = Queued.write s.client message in
    let s' = record s { client = client } in
    if s.client.connected && not (ltb 1 (length client.write_queue)) then start write s' else s'

-- WebsocketClient::Ping
unfoldable pub on_timer : Bool → Socket → Socket
on_timer failed s =
    if not s.client.connected then s else if failed then disconnect s else start ping s

-- WebsocketClient::OnPing
unfoldable pub on_ping : Bool → Socket → Socket
on_ping failed s =
    if not s.client.connected then s else if failed then disconnect s else start wait s

-- WebsocketClient::OnResolve
unfoldable pub on_resolve : ℕ → Bool → Socket → Socket
on_resolve promise failed s =
    if failed then disconnect (set_value promise false s) else start (connect_tcp promise) s

-- WebsocketClient::OnConnect
unfoldable pub on_connect : ℕ → Bool → Socket → Socket
on_connect promise failed s =
    if failed
    then disconnect (set_value promise false s)
    else if s.ssl
    then start (handshake_ssl promise) s
    else start (handshake_websocket promise) s

-- WebsocketClient::OnSslHandshake
unfoldable pub on_ssl_handshake : ℕ → Bool → Socket → Socket
on_ssl_handshake promise failed s =
    if failed then disconnect (set_value promise false s) else start (handshake_websocket promise) s

-- WebsocketClient::OnRead; `message` is empty when nothing was transferred.
unfoldable pub on_read : Bool → String → Socket → Socket
on_read failed message s =
    if not s.client.connected
    then s
    else if failed
    then disconnect s
    else start read (ite (string_discrete message "") s (notify (message_call message) s))

-- WebsocketClient::OnHandshake
unfoldable pub on_handshake : ℕ → Bool → Socket → Socket
on_handshake promise failed s =
    if failed
    then disconnect (set_value promise false s)
    else on_read false ""
        (on_ping false (set_value promise true (notify connected_call (set_connected true s))))

-- WebsocketClient::OnWrite
unfoldable pub on_write : Bool → Socket → Socket
on_write failed s =
    let s' = record s { client = Queued.on_write s.client false } in
    if failed then disconnect s else if is_nil s'.client.write_queue then s' else start write s'

-- WebsocketClient::OnClose
unfoldable pub on_close : ℕ → Bool → Socket → Socket
on_close promise failed s =
    let s' = notify disconnected_call s in
    if not s.client.connected
    then set_value promise true s'
    else if failed
    then disconnect (set_value promise false s')
    else s'

-- The handler that each operation was started with
unfoldable pub complete : Operation → Bool → String → Socket → Socket
complete (resolve promise) failed message s = on_resolve promise failed s
complete (connect_tcp promise) failed message s = on_connect promise failed s
complete (handshake_ssl promise) failed message s = on_ssl_handshake promise failed s
complete (handshake_websocket promise) failed message s = on_handshake promise failed s
complete (close promise) failed message s = on_close promise failed s
complete ping failed message s = on_ping failed s
complete wait failed message s = on_timer failed s
complete read failed message s = on_read failed message s
complete write failed message s = on_write failed s
complete (post text) failed message s = write_text text s

-- What may happen: a call of the three operations of the client, or one of the pending operations
-- completes.
pub data Action : Type 0 where
  connecting : Bool → Action
  disconnecting : Action
  sending : String → Action
  completing : ℕ → Bool → String → Action

unfoldable pub step : Action → Socket → Socket
step (connecting ssl) s = connect ssl s
step disconnecting s = disconnect s
step (sending message) s = send message s
step (completing n failed message) s = elim (take_out n s.pending) [
  | none ↦ s
  | some (op, rest) ↦ complete op failed message (record s { pending = rest })
]

unfoldable pub run : List Action → Socket → Socket
run [] s = s
run (action ∷ actions) s = run actions (step action s)
