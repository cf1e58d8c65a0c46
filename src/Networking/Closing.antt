-- ===== src/Networking/Closing.antt =====
-- Sources/Networking/WebsocketClient.cpp: what a client reports when it fails to connect, after it was
-- closed, and when it is closed while it connects.
use render_studio_kit.Shared.{
  ℕ, zero, suc, ◌≡◌, refl, ◌∙◌, String, Bool, true, false, List, [], ◌∷◌, ◌++◌, Option, none, some,
  inl, inr, Option-cases, Bool-cases, arith, is_nil,
}
use mathlib.Core.List.{append-nil}
use render_studio_kit.Networking.WebsocketClient as Queued
use render_studio_kit.Networking.ClientConnection.{
  Operation, resolve, connect_tcp, handshake_ssl, handshake_websocket, close, ping, wait, read,
  write, post, Call, connected_call, disconnected_call, message_call, Socket, set_value, disconnect,
  send, write_text, on_timer, on_ping, on_resolve, on_connect, on_ssl_handshake, on_read,
  on_handshake, on_write, on_close, complete, Action, connecting, disconnecting, sending,
  completing, take_out, step, run,
}

-- An operation of connecting, and its promise
unfoldable pub connecting_promise : Operation → Option ℕ
connecting_promise (resolve p) = some p
connecting_promise (connect_tcp p) = some p
connecting_promise (handshake_ssl p) = some p
connecting_promise (handshake_websocket p) = some p
connecting_promise _ = none

complete-failed :
    (op : Operation) (p : ℕ) (message : String) (s : Socket)
    → connecting_promise op ≡ some p
    → complete op true message s ≡ disconnect (set_value p false s)
unfolding connecting_promise complete on_resolve on_connect on_ssl_handshake on_handshake
complete-failed (resolve q) p message s e = ground arith
complete-failed (connect_tcp q) p message s e = ground arith
complete-failed (handshake_ssl q) p message s e = ground arith
complete-failed (handshake_websocket q) p message s e = ground arith
complete-failed (close q) p message s e = absurd (ground arith)
complete-failed ping p message s e = absurd (ground arith)
complete-failed wait p message s e = absurd (ground arith)
complete-failed read p message s e = absurd (ground arith)
complete-failed write p message s e = absurd (ground arith)
complete-failed (post text) p message s e = absurd (ground arith)

-- When any step of connecting fails for a client that is not connected, the promise of Connect is set
-- to false, the logic is told once that the client is disconnected, nothing else is started, and the
-- client stays unconnected.
connecting_fails :
    (n : ℕ) (message : String) (s : Socket) (op : Operation) (rest : List Operation) (p : ℕ)
    → take_out n s.pending ≡ some (op, rest)
    → connecting_promise op ≡ some p
    → s.client.connected ≡ false
    → let s' = step (completing n true message) s in
      (s'.results ≡ (s.results ++ (p, false) ∷ []) ++ (s.next_promise, true) ∷ [])
      × (s'.calls ≡ s.calls ++ disconnected_call ∷ [])
      × (s'.pending ≡ rest)
      × (s'.client.connected ≡ false)
unfolding step disconnect
connecting_fails n message s op rest p e f h =
    let s0 = record s { pending = rest } in ground (arith, complete-failed op p message s0 f)

-- What the logic hears but that the client is disconnected
unfoldable pub heard : List Call → List Call
heard [] = []
heard (connected_call ∷ calls) = connected_call ∷ heard calls
heard (disconnected_call ∷ calls) = heard calls
heard (message_call message ∷ calls) = message_call message ∷ heard calls

heard-append : (cs cs' : List Call) → heard (cs ++ cs') ≡ heard cs ++ heard cs'
unfolding heard
heard-append [] cs' = refl
heard-append (connected_call ∷ cs) cs' = ground (arith, heard-append cs cs')
heard-append (disconnected_call ∷ cs) cs' = ground (arith, heard-append cs cs')
heard-append (message_call m ∷ cs) cs' = ground (arith, heard-append cs cs')

-- No step of connecting is pending.
abbrev pub NoneConnects : List Operation → Type 0
NoneConnects [] = Unit {0}
NoneConnects (op ∷ ops) = (connecting_promise op ≡ none) × NoneConnects ops

abbrev pub IsClosed : Socket → Type 0
IsClosed s = (s.client.connected ≡ false) × NoneConnects s.pending

-- The user does not connect again.
abbrev pub NoConnect : List Action → Type 0
NoConnect [] = Unit {0}
NoConnect (connecting ssl ∷ actions) = ⊥
NoConnect (_ ∷ actions) = NoConnect actions

NoneConnects-append :
    (ops : List Operation) (op : Operation)
    → NoneConnects ops
    → connecting_promise op ≡ none
    → NoneConnects (ops ++ op ∷ [])
NoneConnects-append [] op h e = (e, tt)
NoneConnects-append (o ∷ ops) op h e = (h.0, NoneConnects-append ops op h.1 e)

take_out-NoneConnects :
    (n : ℕ) (ops : List Operation) (op : Operation) (rest : List Operation)
    → NoneConnects ops
    → take_out n ops ≡ some (op, rest)
    → (connecting_promise op ≡ none) × NoneConnects rest
unfolding take_out
take_out-NoneConnects n [] op rest h e = absurd (ground arith)
take_out-NoneConnects zero (o ∷ ops) op rest h e = ground (arith, h)
take_out-NoneConnects (suc n) (o ∷ ops) op rest h e = elim (Option-cases (take_out n ops)) [
  | inl f ↦ absurd (ground arith)
  | inr (w, f) ↦ let k = take_out-NoneConnects n ops w.0 w.1 h.1 f in ground (arith, h, k)
]

-- The client stays closed, and the logic hears nothing new.
abbrev pub StaysQuiet : Socket → Socket → Type 0
StaysQuiet s s' = IsClosed s' × (heard s'.calls ≡ heard s.calls)

disconnect-quiet : (s : Socket) → IsClosed s → StaysQuiet s (disconnect s)
unfolding disconnect heard
disconnect-quiet s h =
    ground (arith, h, heard-append s.calls (disconnected_call ∷ []), append-nil (heard s.calls))

on_close-quiet :
    (p : ℕ) (failed : Bool) (s : Socket) → IsClosed s → StaysQuiet s (on_close p failed s)
unfolding on_close heard
on_close-quiet p failed s h =
    ground (arith, h, heard-append s.calls (disconnected_call ∷ []), append-nil (heard s.calls))

on_write-quiet : (failed : Bool) (s : Socket) → IsClosed s → StaysQuiet s (on_write failed s)
unfolding on_write Queued.on_write connecting_promise
on_write-quiet failed s h =
    let client = Queued.on_write s.client false in
    elim (Bool-cases failed) [
      | inl f ↦ ground (arith, disconnect-quiet s h)
      | inr f ↦ elim (Bool-cases (is_nil client.write_queue)) [
        | inl e ↦ ground (arith, h)
        | inr e ↦ ground (arith, h, NoneConnects-append s.pending write h.1 refl)
      ]
    ]

complete-quiet :
    (op : Operation) (failed : Bool) (message : String) (s : Socket)
    → connecting_promise op ≡ none
    → IsClosed s
    → StaysQuiet s (complete op failed message s)
unfolding connecting_promise complete on_ping on_timer on_read write_text Queued.write
complete-quiet (resolve q) failed message s e h = absurd (ground arith)
complete-quiet (connect_tcp q) failed message s e h = absurd (ground arith)
complete-quiet (handshake_ssl q) failed message s e h = absurd (ground arith)
complete-quiet (handshake_websocket q) failed message s e h = absurd (ground arith)
complete-quiet (close q) failed message s e h = on_close-quiet q failed s h
complete-quiet ping failed message s e h = ground (arith, h)
complete-quiet wait failed message s e h = ground (arith, h)
complete-quiet read failed message s e h = ground (arith, h)
complete-quiet write failed message s e h = on_write-quiet failed s h
complete-quiet (post text) failed message s e h = ground (arith, h)

step-quiet :
    (action : Action) (s : Socket)
    → NoConnect (action ∷ [])
    → IsClosed s
    → StaysQuiet s (step action s)
unfolding step send connecting_promise
step-quiet (connecting ssl) s n h = absurd n
step-quiet disconnecting s n h = disconnect-quiet s h
step-quiet (sending message) s n h =
    ((h.0, NoneConnects-append s.pending (post message) h.1 refl), refl)
step-quiet (completing k failed message) s n h = elim (Option-cases (take_out k s.pending)) [
  | inl e ↦ rw (step, e) (h, refl)
  | inr (w, e) ↦
      let t = take_out-NoneConnects k s.pending w.0 w.1 h.1 e in
      rw (step, e) (complete-quiet w.0 failed message (record s { pending = w.1 }) t.0 (h.0, t.1))
]

-- Once a client is closed and no step of connecting is pending, the logic hears of no connection and
-- of no message any more, whatever is called but Connect, and however what is pending completes.
pub run_quiet :
    (actions : List Action) (s : Socket)
    → NoConnect actions
    → IsClosed s
    → (heard (run actions s).calls ≡ heard s.calls) × ((run actions s).client.connected ≡ false)
unfolding run
run_quiet [] s n h = (refl, h.0)
run_quiet (connecting ssl ∷ actions) s n h = absurd n
run_quiet (disconnecting ∷ actions) s n h =
    let q = step-quiet disconnecting s tt h in
    let r = run_quiet actions (step disconnecting s) n q.0 in (r.0 ∙ q.1, r.1)
run_quiet (sending message ∷ actions) s n h =
    let q = step-quiet (sending message) s tt h in
    let r = run_quiet actions (step (sending message) s) n q.0 in (r.0 ∙ q.1, r.1)
run_quiet (completing k failed message ∷ actions) s n h =
    let q = step-quiet (completing k failed message) s tt h in
    let r = run_quiet actions (step (completing k failed message) s) n q.0 in (r.0 ∙ q.1, r.1)
