-- ===== src/Networking/Opening.antt =====
-- Sources/Networking/WebsocketClient.cpp: how a client gets connected, also when it was disconnected
-- in between.
use render_studio_kit.Shared.{
  ℕ, ◌≡◌, refl, ◌∙◌, ap, Bool, true, false, if◌then◌else◌, List, [], ◌∷◌, ◌++◌, inl, inr,
  Bool-cases, arith,
}
use render_studio_kit.Networking.ClientConnection.{
  Operation, resolve, connect_tcp, handshake_ssl, handshake_websocket, wait, read, connected_call,
  disconnected_call, Socket, connect, disconnect, on_ping, on_resolve, on_connect, on_ssl_handshake,
  on_read, on_handshake, complete, Action, connecting, disconnecting, completing, take_out, step,
  run,
}

-- The steps of connecting complete without an error, with SSL one more than without.
abbrev succeed : Action
succeed = completing 0 false ""

abbrev pub finish : Bool → List Action
finish ssl =
    if ssl then succeed ∷ succeed ∷ succeed ∷ succeed ∷ [] else succeed ∷ succeed ∷ succeed ∷ []

step-only :
    (s : Socket) (op : Operation)
    → s.pending ≡ op ∷ []
    → step succeed s ≡ complete op false "" (record s { pending = [] })
unfolding step take_out
step-only s op e = ground arith

-- What a client is after all the steps
abbrev connected_after : ℕ → Socket → Socket
connected_after p s = record s {
  client = record s.client { connected = true };
  pending = wait ∷ read ∷ [];
  results = s.results ++ (p, true) ∷ [];
  calls = s.calls ++ connected_call ∷ [];
}

handshake-connects :
    (s : Socket) (p : ℕ)
    → s.pending ≡ handshake_websocket p ∷ []
    → step succeed s ≡ connected_after p s
unfolding complete on_handshake on_ping on_read
handshake-connects s p e = ground (arith, step-only s (handshake_websocket p) e)

resolve-starts :
    (s : Socket) (p : ℕ)
    → s.pending ≡ resolve p ∷ []
    → step succeed s ≡ record s { pending = connect_tcp p ∷ [] }
unfolding complete on_resolve
resolve-starts s p e = ground (arith, step-only s (resolve p) e)

connect-starts-handshake :
    (s : Socket) (p : ℕ)
    → s.pending ≡ connect_tcp p ∷ []
    → s.ssl ≡ false
    → step succeed s ≡ record s { pending = handshake_websocket p ∷ [] }
unfolding complete on_connect
connect-starts-handshake s p e f = ground (arith, step-only s (connect_tcp p) e)

connect-starts-ssl :
    (s : Socket) (p : ℕ)
    → s.pending ≡ connect_tcp p ∷ []
    → s.ssl ≡ true
    → step succeed (step succeed s) ≡ record s { pending = handshake_websocket p ∷ [] }
unfolding complete on_connect on_ssl_handshake
connect-starts-ssl s p e f =
    let s' = record s { pending = handshake_ssl p ∷ [] } in
    let first : step succeed s ≡ s' = ground (arith, step-only s (connect_tcp p) e) in
    ap (step succeed) first ∙ step-only s' (handshake_ssl p) refl

finish-connects :
    (s : Socket) (p : ℕ) → s.pending ≡ resolve p ∷ [] → run (finish s.ssl) s ≡ connected_after p s
unfolding run
finish-connects s p e =
    let s' = record s { pending = connect_tcp p ∷ [] } in
    let s'' = record s { pending = handshake_websocket p ∷ [] } in
    elim (Bool-cases s.ssl) [
      | inl f ↦
          ap (λ b. run (finish b) s) f
          ∙ ap (λ x. step succeed (step succeed (step succeed x))) (resolve-starts s p e)
          ∙ ap (step succeed) (connect-starts-ssl s' p refl f)
          ∙ handshake-connects s'' p refl
      | inr f ↦
          ap (λ b. run (finish b) s) f
          ∙ ap (λ x. step succeed (step succeed x)) (resolve-starts s p e)
          ∙ ap (step succeed) (connect-starts-handshake s' p refl f)
          ∙ handshake-connects s'' p refl
    ]

-- Connect of a client on which nothing is pending, with or without SSL: when every step completes
-- without an error, the client is connected, the promise is set to true, the logic is told, and
-- afterwards the timer of the next ping and the reading are pending.
connect_succeeds :
    (ssl : Bool) (s : Socket)
    → s.pending ≡ []
    → let s' = run (connecting ssl ∷ finish ssl) s in
      (s'.client.connected ≡ true)
      × (s'.results ≡ s.results ++ (s.next_promise, true) ∷ [])
      × (s'.calls ≡ s.calls ++ connected_call ∷ [])
      × (s'.pending ≡ wait ∷ read ∷ [])
unfolding run step connect
connect_succeeds ssl s e =
    ground (arith, finish-connects (connect ssl s) s.next_promise (ground (arith, e)))

-- Disconnect while such a client connects tells the logic that it is disconnected, and does not stop
-- what is pending: when the steps complete without an error, the logic is told that the client is
-- connected, and the client reads.
pub disconnect_while_connecting :
    (ssl : Bool) (s : Socket)
    → s.pending ≡ []
    → s.client.connected ≡ false
    → let s' = run (connecting ssl ∷ disconnecting ∷ finish ssl) s in
      (s'.client.connected ≡ true)
      × (s'.calls ≡ (s.calls ++ disconnected_call ∷ []) ++ connected_call ∷ [])
      × (s'.pending ≡ wait ∷ read ∷ [])
unfolding run step connect disconnect
disconnect_while_connecting ssl s e f =
    ground (arith, finish-connects (disconnect (connect ssl s)) s.next_promise (ground arith))
