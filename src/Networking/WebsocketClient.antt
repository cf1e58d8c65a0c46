-- ===== src/Networking/WebsocketClient.antt =====
-- Sources/Networking/WebsocketClient.cpp: the write queue of the client. `wire` lists the texts handed
-- to async_write, oldest first.
use render_studio_kit.Shared.{String, Bool, true, false, not, List, [], length, ltb, if◌then◌else◌}
use render_studio_kit.Networking.Queue.{push, pop, back, written}

pub record Client : Type 0 where
  pub write_queue : List String
  pub connected : Bool
  pub wire : List String

-- WebsocketClient::WebsocketClient
abbrev pub created : Client
created = record { write_queue = []; connected = false; wire = [] }

-- OnHandshake without an error; it starts no write
unfoldable pub on_handshake : Client → Client
on_handshake c = record c { connected = true }

-- WebsocketClient::Write
unfoldable pub write : Client → String → Client
write c message =
    let q = push message c.write_queue in
    if not c.connected
    then record c { write_queue = q }
    else if ltb 1 (length q)
    then record c { write_queue = q }
    else record c { write_queue = q; wire = written c.wire (back q) }

-- WebsocketClient::OnWrite; an error leads to Disconnect
unfoldable pub on_write : Client → Bool → Client
on_write c failed = if failed then record c { connected = false } else record c {
  write_queue = pop c.write_queue;
  wire = written c.wire (back (pop c.write_queue));
}
