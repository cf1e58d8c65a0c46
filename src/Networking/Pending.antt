-- ===== src/Networking/Pending.antt =====
-- Sources/Networking/WebsocketClient.cpp: which promises the pending operations hold, and who reads.
use render_studio_kit.Shared.{
  ℕ, zero, suc, ◌+◌, ◌≡◌, ◌≤◌, Bool, true, false, List, [], ◌∷◌, ◌++◌, some, inl, inr, Option-cases,
  arith, ite, ℕ_discrete,
}
use render_studio_kit.Networking.ClientConnection.{
  Operation, resolve, connect_tcp, handshake_ssl, handshake_websocket, close, ping, wait, read,
  write, post, Socket, start, set_value, disconnect, take_out,
}

unfoldable pub same : ℕ → ℕ → ℕ
same p q = ite (ℕ_discrete p q) 1 0

-- Whether an operation is to keep the promise, and how many are
unfoldable pub holds : ℕ → Operation → ℕ
holds p (resolve q) = same p q
holds p (connect_tcp q) = same p q
holds p (handshake_ssl q) = same p q
holds p (handshake_websocket q) = same p q
holds p (close q) = same p q
holds p ping = 0
holds p wait = 0
holds p read = 0
holds p write = 0
holds p (post text) = 0

unfoldable pub held : ℕ → List Operation → ℕ
held p [] = 0
held p (op ∷ ops) = holds p op + held p ops

-- How often the promise was set
unfoldable pub times_set : ℕ → List (ℕ × Bool) → ℕ
times_set p [] = 0
times_set p ((q, value) ∷ results) = same p q + times_set p results

-- The operations of reading that are pending
unfoldable pub reading : Operation → ℕ
reading read = 1
reading _ = 0

unfoldable pub reads : List Operation → ℕ
reads [] = 0
reads (op ∷ ops) = reading op + reads ops

held-append : (p : ℕ) (ops ops' : List Operation) → held p (ops ++ ops') ≡ held p ops + held p ops'
unfolding held
held-append p [] ops' = ground arith
held-append p (op ∷ ops) ops' = ground (arith, held-append p ops ops')

times_set-append :
    (p : ℕ) (rs rs' : List (ℕ × Bool)) → times_set p (rs ++ rs') ≡ times_set p rs + times_set p rs'
unfolding times_set
times_set-append p [] rs' = ground arith
times_set-append p ((q, v) ∷ rs) rs' = ground (arith, times_set-append p rs rs')

pub reads-append : (ops ops' : List Operation) → reads (ops ++ ops') ≡ reads ops + reads ops'
unfolding reads
reads-append [] ops' = ground arith
reads-append (op ∷ ops) ops' = ground (arith, reads-append ops ops')

pub take_out-counts :
    (n : ℕ) (ops : List Operation) (op : Operation) (rest : List Operation)
    → take_out n ops ≡ some (op, rest)
    → ((p : ℕ) → held p ops ≡ holds p op + held p rest) × (reads ops ≡ reading op + reads rest)
unfolding take_out held reads
take_out-counts n [] op rest e = absurd (ground arith)
take_out-counts zero (o ∷ ops) op rest e = (λ p. ground arith, ground arith)
take_out-counts (suc n) (o ∷ ops) op rest e = elim (Option-cases (take_out n ops)) [
  | inl f ↦ absurd (ground arith)
  | inr (w, f) ↦
      let h = take_out-counts n ops w.0 w.1 f in (λ p. ground (arith, h.0 p), ground (arith, h.1))
]

-- Every promise that was made is set or held at most once, and no other is, if `more` counts the
-- promises that the running handler was given.
abbrev pub Fits : (ℕ → ℕ) → Socket → Type 0
Fits more s =
    (p : ℕ)
    → (times_set p s.results + held p s.pending + more p ≤ 1)
      × (s.next_promise ≤ p → times_set p s.results + held p s.pending + more p ≡ 0)

abbrev pub nothing : ℕ → ℕ
nothing p = 0

-- A connected client is reading.
abbrev pub IsReading : Socket → Type 0
IsReading s = s.client.connected ≡ true → 1 ≤ reads s.pending

abbrev pub IsValid : Socket → Type 0
IsValid s = Fits nothing s × IsReading s

abbrev pub of_promise : ℕ → ℕ → ℕ
of_promise q p = same p q

abbrev pub of_operation : Operation → ℕ → ℕ
of_operation op p = holds p op

-- The three things that handlers do with a promise
pub set_value-Fits :
    (q : ℕ) (v : Bool) (s : Socket) → Fits (of_promise q) s → Fits nothing (set_value q v s)
unfolding times_set
set_value-Fits q v s h p = ground (arith, h p, times_set-append p s.results ((q, v) ∷ []))

pub start-Fits :
    (op : Operation) (s : Socket) → Fits (of_operation op) s → Fits nothing (start op s)
unfolding held
start-Fits op s h p = ground (arith, h p, held-append p s.pending (op ∷ []))

abbrev pub promised : Socket → Socket
promised s = record s { next_promise = s.next_promise + 1 }

pub promised-Fits : (s : Socket) → Fits nothing s → Fits (of_promise s.next_promise) (promised s)
unfolding same
promised-Fits s h p = elim (ℕ_discrete p s.next_promise) [
  | yes e ↦ ground (arith, h p)
  | no n ↦ ground (arith, h p)
]

pub disconnect-Fits : (s : Socket) → Fits nothing s → Fits nothing (disconnect s)
unfolding disconnect holds
disconnect-Fits s h p =
    let q = s.next_promise in
    ground (
      arith,
      start-Fits (close q) (promised s) (promised-Fits s h) p,
      set_value-Fits q true (promised s) (promised-Fits s h) p,
    )

pub disconnected : (s : Socket) → (disconnect s).client.connected ≡ false
unfolding disconnect
disconnected s = ground arith

pub disconnect-IsValid : (s : Socket) → Fits nothing s → IsValid (disconnect s)
disconnect-IsValid s h = (disconnect-Fits s h, λ e. absurd (ground (arith, disconnected s)))

-- A promise that a handler does not keep
pub forget-Fits : (q : ℕ) (s : Socket) → Fits (of_promise q) s → Fits nothing s
forget-Fits q s h p = ground (arith, h p)

-- An operation without a promise
pub start-Fits-free :
    (op : Operation) (s : Socket)
    → ((p : ℕ) → holds p op ≡ 0)
    → Fits nothing s
    → Fits nothing (start op s)
start-Fits-free op s free h = start-Fits op s (λ p. ground (arith, free p, h p))

-- Of the other operations, those that were there stay.
pub start-IsReading : (op : Operation) (s : Socket) → IsReading s → IsReading (start op s)
start-IsReading op s h e = ground (arith, h e, reads-append s.pending (op ∷ []))
