-- ===== src/Networking/Promises.antt =====
-- Sources/Networking/WebsocketClient.cpp: no promise is set twice, and a connected client always reads.
use render_studio_kit.Shared.{
  ℕ, ◌+◌, ◌≡◌, ◌≤◌, refl, String, Bool, true, false, not, if◌then◌else◌, List, [], ◌∷◌, inl, inr,
  Option-cases, arith, is_nil, ◌&&◌, ltb, length, ite, string_discrete,
}
use render_studio_kit.Networking.WebsocketClient as Queued
use render_studio_kit.Networking.ClientConnection.{
  Operation, resolve, connect_tcp, handshake_ssl, handshake_websocket, close, ping, wait, read,
  write, post, notify, message_call, connected_call, disconnected_call, set_connected, Socket,
  created, start, set_value, connect, disconnect, send, write_text, on_timer, on_ping, on_resolve,
  on_connect, on_ssl_handshake, on_read, on_handshake, on_write, on_close, complete, Action,
  connecting, disconnecting, sending, completing, take_out, step, run,
}
use render_studio_kit.Networking.Pending.{
  holds, held, times_set, reading, reads, Fits, nothing, IsReading, IsValid, of_promise,
  of_operation, take_out-counts, set_value-Fits, start-Fits, start-Fits-free, promised,
  promised-Fits, disconnect-Fits, disconnect-IsValid, start-IsReading, forget-Fits, reads-append,
}

if-IsValid :
    (b : Bool) (x y : Socket)
    → (b ≡ true → IsValid x)
    → (b ≡ false → IsValid y)
    → IsValid (if b then x else y)
if-IsValid true x y h k = h refl
if-IsValid false x y h k = k refl

if-Fits :
    (b : Bool) (x y : Socket) → Fits nothing x → Fits nothing y → Fits nothing (if b then x else y)
if-Fits true x y h k = h
if-Fits false x y h k = k

on_timer-IsValid : (failed : Bool) (s : Socket) → IsValid s → IsValid (on_timer failed s)
unfolding on_timer holds
on_timer-IsValid failed s h =
    if-IsValid (not s.client.connected) s (if failed then disconnect s else start ping s) (λ e. h)
      (λ e.
        if-IsValid failed (disconnect s) (start ping s) (λ f. disconnect-IsValid s h.0)
          (λ f. (start-Fits-free ping s (λ p. refl) h.0, start-IsReading ping s h.1)))

on_ping-IsValid : (failed : Bool) (s : Socket) → IsValid s → IsValid (on_ping failed s)
unfolding on_ping holds
on_ping-IsValid failed s h =
    if-IsValid (not s.client.connected) s (if failed then disconnect s else start wait s) (λ e. h)
      (λ e.
        if-IsValid failed (disconnect s) (start wait s) (λ f. disconnect-IsValid s h.0)
          (λ f. (start-Fits-free wait s (λ p. refl) h.0, start-IsReading wait s h.1)))

-- Reading again keeps a client reading, whatever else is pending.
start-read-IsReading : (s : Socket) → IsReading (start read s)
unfolding reads reading
start-read-IsReading s e = ground (arith, reads-append s.pending (read ∷ []))

heard-Fits :
    (message : String) (s : Socket)
    → Fits nothing s
    → (d : Dec (message ≡ "")) → Fits nothing (ite d s (notify (message_call message) s))
heard-Fits message s h (yes e) = h
heard-Fits message s h (no n) = h

on_read-IsValid :
    (failed : Bool) (message : String) (s : Socket)
    → Fits nothing s
    → IsValid (on_read failed message s)
unfolding on_read holds
on_read-IsValid failed message s h =
    let heard = ite (string_discrete message "") s (notify (message_call message) s) in
    if-IsValid (not s.client.connected) s (if failed then disconnect s else start read heard)
      (λ e. (h, λ e'. absurd (ground arith)))
      (λ e.
        if-IsValid failed (disconnect s) (start read heard) (λ f. disconnect-IsValid s h)
          (λ f. (
            start-Fits-free read heard (λ p. refl)
                (heard-Fits message s h (string_discrete message "")),
            start-read-IsReading heard,
          )))

-- The handlers of connecting
give_up-IsValid :
    (q : ℕ) (s : Socket) → Fits (of_promise q) s → IsValid (disconnect (set_value q false s))
give_up-IsValid q s h = disconnect-IsValid (set_value q false s) (set_value-Fits q false s h)

on_resolve-IsValid :
    (q : ℕ) (failed : Bool) (s : Socket)
    → Fits (of_promise q) s
    → IsReading s
    → IsValid (on_resolve q failed s)
unfolding on_resolve holds
on_resolve-IsValid q failed s h k =
    if-IsValid failed (disconnect (set_value q false s)) (start (connect_tcp q) s)
      (λ f. give_up-IsValid q s h)
      (λ f. (start-Fits (connect_tcp q) s h, start-IsReading (connect_tcp q) s k))

on_ssl_handshake-IsValid :
    (q : ℕ) (failed : Bool) (s : Socket)
    → Fits (of_promise q) s
    → IsReading s
    → IsValid (on_ssl_handshake q failed s)
unfolding on_ssl_handshake holds
on_ssl_handshake-IsValid q failed s h k =
    let op = handshake_websocket q in
    if-IsValid failed (disconnect (set_value q false s)) (start op s) (λ f. give_up-IsValid q s h)
      (λ f. (start-Fits op s h, start-IsReading op s k))

on_connect-IsValid :
    (q : ℕ) (failed : Bool) (s : Socket)
    → Fits (of_promise q) s
    → IsReading s
    → IsValid (on_connect q failed s)
unfolding on_connect holds
on_connect-IsValid q failed s h k =
    let ssl = handshake_ssl q in
    let plain = handshake_websocket q in
    if-IsValid failed (disconnect (set_value q false s))
      (if s.ssl then start ssl s else start plain s) (λ f. give_up-IsValid q s h)
      (λ f.
        if-IsValid s.ssl (start ssl s) (start plain s)
          (λ e. (start-Fits ssl s h, start-IsReading ssl s k))
          (λ e. (start-Fits plain s h, start-IsReading plain s k)))

on_ping-Fits : (failed : Bool) (s : Socket) → Fits nothing s → Fits nothing (on_ping failed s)
unfolding on_ping holds
on_ping-Fits failed s h =
    if-Fits (not s.client.connected) s (if failed then disconnect s else start wait s) h (
      if-Fits failed (disconnect s) (start wait s) (disconnect-Fits s h)
        (start-Fits-free wait s (λ p. refl) h))

on_handshake-IsValid :
    (q : ℕ) (failed : Bool) (s : Socket) → Fits (of_promise q) s → IsValid (on_handshake q failed s)
unfolding on_handshake
on_handshake-IsValid q failed s h =
    let s' = set_value q true (notify connected_call (set_connected true s)) in
    if-IsValid failed (disconnect (set_value q false s)) (on_read false "" (on_ping false s'))
      (λ f. give_up-IsValid q s h)
      (λ f. on_read-IsValid false "" (on_ping false s') (
        on_ping-Fits false s'
          (set_value-Fits q true (notify connected_call (set_connected true s)) h)))

on_close-IsValid :
    (q : ℕ) (failed : Bool) (s : Socket)
    → Fits (of_promise q) s
    → IsReading s
    → IsValid (on_close q failed s)
unfolding on_close
on_close-IsValid q failed s h k =
    let s' = notify disconnected_call s in
    if-IsValid (not s.client.connected) (set_value q true s')
      (if failed then disconnect (set_value q false s') else s')
      (λ e. (set_value-Fits q true s' h, k))
      (λ e.
        if-IsValid failed (disconnect (set_value q false s')) s' (λ f. give_up-IsValid q s' h)
          (λ f. (forget-Fits q s' h, k)))

write_text-IsValid : (message : String) (s : Socket) → IsValid s → IsValid (write_text message s)
unfolding write_text holds Queued.write
write_text-IsValid message s h =
    let client = Queued.write s.client message in
    let s' = record s { client = client } in
    let valid : IsValid s' = (h.0, λ e. h.1 (ground arith)) in
    if-IsValid (s.client.connected && not (ltb 1 (length client.write_queue))) (start write s') s'
      (λ e. (start-Fits-free write s' (λ p. refl) valid.0, start-IsReading write s' valid.1))
      (λ e. valid)

on_write-IsValid : (failed : Bool) (s : Socket) → IsValid s → IsValid (on_write failed s)
unfolding on_write holds Queued.on_write
on_write-IsValid failed s h =
    let s' = record s { client = Queued.on_write s.client false } in
    if-IsValid failed (disconnect s) (if is_nil s'.client.write_queue then s' else start write s')
      (λ f. disconnect-IsValid s h.0)
      (λ f.
        if-IsValid (is_nil s'.client.write_queue) s' (start write s') (λ e. h)
          (λ e. (start-Fits-free write s' (λ p. refl) h.0, start-IsReading write s' h.1)))

send-IsValid : (message : String) (s : Socket) → IsValid s → IsValid (send message s)
unfolding send holds
send-IsValid message s h =
    (start-Fits-free (post message) s (λ p. refl) h.0, start-IsReading (post message) s h.1)

connect-IsValid : (ssl : Bool) (s : Socket) → IsValid s → IsValid (connect ssl s)
unfolding connect holds
connect-IsValid ssl s h =
    let op = resolve s.next_promise in
    let s' = record (promised s) { ssl = ssl } in
    (start-Fits op s' (promised-Fits s h.0), start-IsReading op s' h.1)

-- An operation that completes is not pending any more, so the promise that it holds is its handler's.
complete-IsValid :
    (op : Operation) (failed : Bool) (message : String) (s : Socket)
    → Fits (of_operation op) s
    → (s.client.connected ≡ true → 1 ≤ reading op + reads s.pending)
    → IsValid (complete op failed message s)
unfolding complete holds reading
complete-IsValid (resolve q) failed message s h k =
    on_resolve-IsValid q failed s h (λ e. ground (arith, k e))
complete-IsValid (connect_tcp q) failed message s h k =
    on_connect-IsValid q failed s h (λ e. ground (arith, k e))
complete-IsValid (handshake_ssl q) failed message s h k =
    on_ssl_handshake-IsValid q failed s h (λ e. ground (arith, k e))
complete-IsValid (handshake_websocket q) failed message s h k = on_handshake-IsValid q failed s h
complete-IsValid (close q) failed message s h k =
    on_close-IsValid q failed s h (λ e. ground (arith, k e))
complete-IsValid ping failed message s h k = on_ping-IsValid failed s (h, λ e. ground (arith, k e))
complete-IsValid wait failed message s h k = on_timer-IsValid failed s (h, λ e. ground (arith, k e))
complete-IsValid read failed message s h k = on_read-IsValid failed message s h
complete-IsValid write failed message s h k =
    on_write-IsValid failed s (h, λ e. ground (arith, k e))
complete-IsValid (post text) failed message s h k =
    write_text-IsValid text s (h, λ e. ground (arith, k e))

step-IsValid : (action : Action) (s : Socket) → IsValid s → IsValid (step action s)
unfolding step
step-IsValid (connecting ssl) s h = connect-IsValid ssl s h
step-IsValid disconnecting s h = disconnect-IsValid s h.0
step-IsValid (sending message) s h = send-IsValid message s h
step-IsValid (completing n failed message) s h = elim (Option-cases (take_out n s.pending)) [
  | inl e ↦ rw (step, e) h
  | inr (w, e) ↦
      let c = take_out-counts n s.pending w.0 w.1 e in
      let s' = record s { pending = w.1 } in
      rw (step, e)
        (complete-IsValid w.0 failed message s' (λ p. ground (arith, h.0 p, c.0 p))
          (λ k. ground (arith, h.1 k, c.1)))
]

run-IsValid : (actions : List Action) (s : Socket) → IsValid s → IsValid (run actions s)
unfolding run
run-IsValid [] s h = h
run-IsValid (action ∷ actions) s h = run-IsValid actions (step action s) (step-IsValid action s h)

created-IsValid : IsValid created
unfolding times_set held
created-IsValid = (λ p. (ground arith, λ h. ground arith), λ e. absurd (ground arith))

-- Whatever the user of a new client calls, and in whatever order and with whatever errors the
-- operations complete, set_value is called at most once on every promise, and a connected client has
-- an operation of reading pending.
pub run_promises :
    (actions : List Action)
    → ((p : ℕ) → times_set p (run actions created).results ≤ 1)
      × ((run actions created).client.connected ≡ true → 1 ≤ reads (run actions created).pending)
run_promises actions =
    let h = run-IsValid actions created created-IsValid in (λ p. ground (arith, h.0 p), h.1)
