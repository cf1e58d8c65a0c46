-- ===== src/Networking/WebsocketSession.antt =====
-- Sources/Networking/WebsocketServer.cpp: the write queue of a session of the server. The strand runs
-- one handler at a time. `wire` lists the texts handed to async_write, oldest first.
use render_studio_kit.Shared.{String, Bool, true, false, List, [], length, ltb, if◌then◌else◌}
use render_studio_kit.Networking.Queue.{push, pop, front, back, written}

pub record Session : Type 0 where
  pub write_queue : List String
  pub connected : Bool
  pub wire : List String

-- A session when OnAccept has made it connected
abbrev pub accepted : Session
accepted = record { write_queue = []; connected = true; wire = [] }

-- WebsocketSession::Write
unfoldable pub write : Session → String → Session
write s message =
    let q = push message s.write_queue in
    if ltb 1 (length q)
    then record s { write_queue = q }
    else record s { write_queue = q; wire = written s.wire (back q) }

-- WebsocketSession::OnWrite; `failed` is the error code. OnDisconnected is the server's.
unfoldable pub on_write : Session → Bool → Session
on_write s failed =
    if s.connected
    then (if failed then record s { connected = false } else record s {
      write_queue = pop s.write_queue;
      wire = written s.wire (front (pop s.write_queue));
    })
    else s
