-- ===== src/Examples/Connecting.antt =====
-- The theorems on the connection of the client at concrete inputs.
use render_studio_kit.Shared.{ℕ, ◌≡◌, ◌≤◌, refl, true, false, List, [], ◌∷◌, ite, ℕ_discrete, none}
use render_studio_kit.Networking.ClientConnection.{
  close, wait, read, connected_call, disconnected_call, Socket, created, connecting, disconnecting,
  sending, completing, Action, run,
}
use render_studio_kit.Networking.SessionConnection
use render_studio_kit.Networking.Accepting.{IsProtocol}
use render_studio_kit.Networking.Protocol.{run-IsProtocol}
use render_studio_kit.Shared.Texts.{codes}
use render_studio_kit.Networking.Workspace as Kept
use render_studio_kit.Networking.Pending.{times_set, reads}
use render_studio_kit.Networking.Promises.{run_promises}
use render_studio_kit.Networking.Closing.{connecting_promise, heard, run_quiet}
use render_studio_kit.Networking.Opening.{finish, disconnect_while_connecting}

-- A connection that is closed while a text is being written and the server sends one
abbrev session : List Action
session =
    connecting false
    ∷ completing 0 false ""
    ∷ completing 0 false ""
    ∷ completing 0 false ""
    ∷ sending "edit"
    ∷ completing 2 false ""
    ∷ completing 1 false "answer"
    ∷ disconnecting
    ∷ completing 0 true ""
    ∷ completing 0 true ""
    ∷ completing 0 true ""
    ∷ completing 0 false ""
    ∷ []

run_promises_example :
    ((p : ℕ) → times_set p (run session created).results ≤ 1)
    × ((run session created).client.connected ≡ true → 1 ≤ reads (run session created).pending)
run_promises_example = run_promises session

-- The client was closed while a text was on its way in.
abbrev closed : Socket
closed = record created {
  pending = wait ∷ read ∷ close 1 ∷ [];
  next_promise = 2;
  calls = connected_call ∷ [];
}

run_quiet_example :
    let actions = completing 1 false "late" ∷ sending "edit" ∷ completing 1 false "" ∷ [] in
    (heard (run actions closed).calls ≡ heard closed.calls)
    × ((run actions closed).client.connected ≡ false)
unfolding connecting_promise
run_quiet_example =
    run_quiet (completing 1 false "late" ∷ sending "edit" ∷ completing 1 false "" ∷ []) closed tt
      (refl, (refl, (refl, (refl, tt))))

disconnect_while_connecting_example :
    let s' = run (connecting false ∷ disconnecting ∷ finish false) created in
    (s'.client.connected ≡ true)
    × (s'.calls ≡ disconnected_call ∷ connected_call ∷ [])
    × (s'.pending ≡ wait ∷ read ∷ [])
disconnect_while_connecting_example = disconnect_while_connecting false created refl refl

-- A session is accepted, reads a text while it writes another, and its connection breaks.
abbrev actions : List SessionConnection.Action
actions =
    SessionConnection.completing 0 false ""
    ∷ SessionConnection.completing 0 false ""
    ∷ SessionConnection.sending "answer"
    ∷ SessionConnection.completing 1 false ""
    ∷ SessionConnection.completing 0 false "edit"
    ∷ SessionConnection.completing 0 true ""
    ∷ SessionConnection.completing 0 true ""
    ∷ []

run-IsProtocol_example : IsProtocol (SessionConnection.run actions SessionConnection.running)
run-IsProtocol_example = run-IsProtocol actions

-- No workspace runs; the third attempt to connect to the new one succeeds.
abbrev system : Kept.System
system = record {
  guarded_port_in_use = false;
  port_in_use = false;
  connects = λ n. ite (ℕ_discrete n 3) true false;
  launches = true;
}

abbrev new_workspace : Kept.Workspace
new_workspace = record {
  workspace_url = codes "wss://example.com";
  client = none;
  ping_task = none;
  last_state = "";
  connected = false;
  paused = false;
  notices = [];
}
