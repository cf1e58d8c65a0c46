-- ===== src/Networking/Protocol.antt =====
-- Sources/Networking/WebsocketServer.cpp: in which order a session calls the logic of the server.
use render_studio_kit.Shared.{
  ◌+◌, ◌≡◌, refl, ap, String, Bool, true, false, not, List, [], ◌∷◌, ◌++◌, inl, inr, is_nil, length,
  ltb, if◌then◌else◌, Option-cases, arith,
}
use render_studio_kit.Shared.Options.{take_out}
use render_studio_kit.Networking.WebsocketSession as Queued
use render_studio_kit.Networking.SessionConnection.{
  Operation, run_on_strand, accept, read, write, post, connected_call, disconnected_call,
  message_call, Peer, running, start, notify, set_connected, end_session, send, write_text,
  start_read, on_run, on_accept, on_read, on_write, complete, Action, sending, completing, step,
  run,
}
use render_studio_kit.Networking.Accepting.{
  beginning, beginnings, beginnings-append, take_out-beginnings, IsBefore, IsOpen, IsProtocol,
  IsValid, if-IsValid, start-IsValid, moved, write-connected, on_write-connected, connected-IsOpen,
  more_messages,
}

write_text-IsValid : (message : String) (p : Peer) → IsValid p → IsValid (write_text message p)
unfolding write_text beginning
write_text-IsValid message p h =
    let session = Queued.write p.session message in
    let p' = record p { session = session } in
    let same : session.connected ≡ p.session.connected = write-connected p.session message in
    let h' : IsValid p' = moved p session same h in
    if-IsValid (ltb 1 (length session.write_queue)) p' (start write p') (λ e. h')
      (λ e. start-IsValid write p' refl h')

end_session-IsValid :
    (p : Peer)
    → IsOpen p.calls p.session.connected
    → beginnings p.pending ≡ 0
    → IsValid (end_session p)
end_session-IsValid p (c, (ms, e)) k =
    inr (inr (refl, (ms, ap (λ calls. calls ++ disconnected_call ∷ []) e)), k)

start_read-IsValid : (p : Peer) → IsValid p → IsValid (start_read p)
unfolding start_read beginning
start_read-IsValid p h =
    if-IsValid (not p.session.connected) p (start read p) (λ e. h)
      (λ e. start-IsValid read p refl h)

on_read-IsValid :
    (failed : Bool) (message : String) (p : Peer) → IsValid p → IsValid (on_read failed message p)
unfolding on_read
on_read-IsValid failed message p (inl (h, k)) =
    if-IsValid (not p.session.connected) p
      (if failed then end_session p else start_read (notify (message_call message) p))
      (λ e. inl (h, k)) (λ e. absurd (ground (arith, h)))
on_read-IsValid failed message p (inr (inr h, k)) =
    if-IsValid (not p.session.connected) p
      (if failed then end_session p else start_read (notify (message_call message) p))
      (λ e. inr (inr h, k)) (λ e. absurd (ground (arith, h)))
on_read-IsValid failed message p (inr (inl h, k)) =
    let p' = notify (message_call message) p in
    if-IsValid (not p.session.connected) p (if failed then end_session p else start_read p')
      (λ e. absurd (ground (arith, h)))
      (λ e.
        if-IsValid failed (end_session p) (start_read p') (λ f. end_session-IsValid p h k)
          (λ f. start_read-IsValid p' (inr (inl (more_messages message p h), k))))

on_write-IsValid : (failed : Bool) (p : Peer) → IsValid p → IsValid (on_write failed p)
unfolding on_write beginning
on_write-IsValid failed p h =
    let session = Queued.on_write p.session false in
    let p' = record p { session = session } in
    let h' : IsValid p' = moved p session (on_write-connected p.session) h in
    if-IsValid (not p.session.connected) p
      (if failed then end_session p else if is_nil session.write_queue then p' else start write p')
      (λ e. h)
      (λ e.
        if-IsValid failed (end_session p)
          (if is_nil session.write_queue then p' else start write p')
          (λ f.
            end_session-IsValid p (connected-IsOpen p h (ground arith)).0
              (connected-IsOpen p h (ground arith)).1)
          (λ f.
            if-IsValid (is_nil session.write_queue) p' (start write p') (λ g. h')
              (λ g. start-IsValid write p' refl h')))

-- A session that is being accepted has called nothing yet.
on_accept-IsValid :
    (failed : Bool) (p : Peer)
    → IsBefore p.calls p.session.connected
    → beginnings p.pending ≡ 0
    → IsValid (on_accept failed p)
unfolding on_accept
on_accept-IsValid failed p (c, e) k =
    let p' = notify connected_call (set_connected true p) in
    if-IsValid failed (set_connected false p) (start_read p') (λ f. inl ((refl, e), omega arith))
      (λ f.
        start_read-IsValid p'
          (inr (inl (refl, ([], ap (λ calls. calls ++ connected_call ∷ []) e)), k)))

-- A beginning is pending only before the session is accepted, and only one.
first_of :
    (p : Peer) (rest : List Operation)
    → beginnings p.pending ≡ 1 + beginnings rest
    → IsValid p
    → IsBefore p.calls p.session.connected × (beginnings rest ≡ 0)
first_of p rest e (inl (h, k)) = (h, omega arith)
first_of p rest e (inr (h, k)) = absurd (omega arith)

-- Without an operation that is no beginning
without :
    (p : Peer) (op : Operation) (rest : List Operation)
    → beginning op ≡ 0
    → beginnings p.pending ≡ beginning op + beginnings rest
    → IsValid p
    → IsValid (record p { pending = rest })
without p op rest e f (inl (h, k)) = inl (h, omega arith)
without p op rest e f (inr (h, k)) = inr (h, omega arith)

complete-IsValid :
    (op : Operation) (failed : Bool) (message : String) (p : Peer) (rest : List Operation)
    → beginnings p.pending ≡ beginning op + beginnings rest
    → IsValid p
    → IsValid (complete op failed message (record p { pending = rest }))
unfolding complete beginning on_run
complete-IsValid run_on_strand failed message p rest e h =
    let (before, none_left) = first_of p rest e h in
    inl (before, ground (arith, beginnings-append rest accept))
complete-IsValid accept failed message p rest e h =
    let (before, none_left) = first_of p rest e h in
    on_accept-IsValid failed (record p { pending = rest }) before none_left
complete-IsValid read failed message p rest e h =
    on_read-IsValid failed message (record p { pending = rest }) (without p read rest refl e h)
complete-IsValid write failed message p rest e h =
    on_write-IsValid failed (record p { pending = rest }) (without p write rest refl e h)
complete-IsValid (post text) failed message p rest e h =
    write_text-IsValid text (record p { pending = rest }) (without p (post text) rest refl e h)

step-IsValid : (action : Action) (p : Peer) → IsValid p → IsValid (step action p)
unfolding step send beginning
step-IsValid (sending message) p h = start-IsValid (post message) p refl h
step-IsValid (completing n failed message) p h = elim (Option-cases (take_out n p.pending)) [
  | inl e ↦ rw (step, e) h
  | inr (w, e) ↦
      rw (step, e)
        (complete-IsValid w.0 failed message p w.1 (take_out-beginnings n p.pending w.0 w.1 e) h)
]

run-IsValid : (actions : List Action) (p : Peer) → IsValid p → IsValid (run actions p)
unfolding run
run-IsValid [] p h = h
run-IsValid (action ∷ actions) p h = run-IsValid actions (step action p) (step-IsValid action p h)

to_protocol : (p : Peer) → IsValid p → IsProtocol p
to_protocol p (inl (h, k)) = inl h
to_protocol p (inr (h, k)) = inr h

running-IsValid : IsValid running
unfolding beginnings beginning
running-IsValid = inl ((refl, refl), omega arith)

-- Whatever the server sends to a session, and however its operations complete, the session has called
-- nothing of the logic yet, or OnConnected and then OnMessage some number of times while it is
-- connected, or these and then OnDisconnected once after it was connected.
pub run-IsProtocol : (actions : List Action) → IsProtocol (run actions running)
run-IsProtocol actions =
    to_protocol (run actions running) (run-IsValid actions running running-IsValid)
