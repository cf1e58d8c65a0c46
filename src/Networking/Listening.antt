-- ===== src/Networking/Listening.antt =====
-- What the server waits for: one acceptance until one fails, and none from then on.
use render_studio_kit.Shared.{
  ℕ, zero, suc, ◌+◌, ◌≤◌, Bool, true, false, ◌≡◌, refl, sym, ◌∙◌, ap, List, [], ◌∷◌, ◌++◌, none,
  some, Option-cases, inl, inr, if◌then◌else◌, length, length-append, arith, ◌||◌,
}
use render_studio_kit.Shared.Options.{take_out}
use render_studio_kit.Shared.Texts.{Text}
use render_studio_kit.Networking.Listener.{
  Awaited, accepting, dispatched, reading, Received, end_of_stream, read_error, request, Listener,
  Completion, accept_next, on_accepted, on_dispatched, on_received, open_session, conclude, advance,
  serve,
}

abbrev pub acceptance : Awaited → ℕ
acceptance accepting = 1
acceptance _ = 0

-- How many acceptances are pending
abbrev pub acceptances : List Awaited → ℕ
acceptances [] = 0
acceptances (op ∷ ops) = acceptance op + acceptances ops

acceptances-append :
    (ops : List Awaited) (op : Awaited)
    → acceptances (ops ++ op ∷ []) ≡ acceptances ops + acceptance op
acceptances-append [] op = omega arith
acceptances-append (o ∷ ops) op = ground (arith, acceptances-append ops op)

take_out-acceptances :
    (n : ℕ) (ops : List Awaited) (op : Awaited) (rest : List Awaited)
    → take_out n ops ≡ some (op, rest)
    → (acceptances ops ≡ acceptance op + acceptances rest) × (length ops ≡ 1 + length rest)
unfolding take_out
take_out-acceptances n [] op rest e = absurd (ground arith)
take_out-acceptances zero (o ∷ ops) op rest e = ground arith
take_out-acceptances (suc n) (o ∷ ops) op rest e = elim (Option-cases (take_out n ops)) [
  | inl f ↦ absurd (ground arith)
  | inr (w, f) ↦ ground (arith, take_out-acceptances n ops w.0 w.1 f)
]

-- Whether the completion of an operation is a failed acceptance
abbrev pub fails : Awaited → Completion → Bool
fails accepting c = c.failed
fails _ c = false

-- Whether an acceptance fails during the completions
unfoldable pub ever_fails : List (ℕ × Completion) → Listener → Bool
ever_fails [] l = false
ever_fails ((n, c) ∷ rest) l =
    let later = ever_fails rest (advance n c l) in
    elim (take_out n l.awaited) [ none ↦ later | some (op, ops) ↦ fails op c || later ]

-- Connections that are accepted and not yet answered, and sessions
abbrev pub known : Listener → ℕ
known l = length l.awaited + length l.sessions

accepted_waits :
    (failed : Bool) (l : Listener)
    → acceptances (on_accepted failed l).awaited ≡ acceptances l.awaited + (if failed then 0 else 1)
unfolding on_accepted accept_next
accepted_waits true l = omega arith
accepted_waits false l = ground (
  arith,
  acceptances-append (l.awaited ++ dispatched ∷ []) accepting,
  acceptances-append l.awaited dispatched,
)

received-awaited :
    (endpoint : Text) (r : Received) (l : Listener) → (on_received endpoint r l).awaited ≡ l.awaited
unfolding on_received
received-awaited endpoint end_of_stream l = refl
received-awaited endpoint read_error l = refl
received-awaited endpoint (request target true) l = refl
received-awaited endpoint (request target false) l = refl

-- What a completion leaves of the acceptances
concluded :
    (op : Awaited) (c : Completion) (l : Listener)
    → acceptances (conclude op c l).awaited
      ≡ acceptances l.awaited + (if fails op c then 0 else acceptance op)
unfolding conclude on_dispatched
concluded accepting c l = accepted_waits c.failed l
concluded dispatched c l = ground (arith, acceptances-append l.awaited reading)
concluded reading c l = ground (arith, received-awaited c.endpoint c.received l)

received-known :
    (endpoint : Text) (r : Received) (l : Listener) → known (on_received endpoint r l) ≤ 1 + known l
unfolding on_received
received-known endpoint end_of_stream l = omega arith
received-known endpoint read_error l = omega arith
received-known endpoint (request target true) l =
    ground (arith, length-append l.sessions (open_session endpoint target ∷ []))
received-known endpoint (request target false) l = omega arith

idle : (n : ℕ) (c : Completion) (l : Listener) → take_out n l.awaited ≡ none → advance n c l ≡ l
unfolding advance
idle n c l e = rw (e, advance) refl

busy :
    (n : ℕ) (c : Completion) (l : Listener) (op : Awaited) (rest : List Awaited)
    → take_out n l.awaited ≡ some (op, rest)
    → advance n c l ≡ conclude op c (record l { awaited = rest })
unfolding advance
busy n c l op rest e = rw (e, advance) refl

-- Without an acceptance, nothing becomes known.
concluded-known :
    (op : Awaited) (c : Completion) (l : Listener)
    → acceptance op ≡ 0
    → known (conclude op c l) ≤ 1 + known l
unfolding conclude on_dispatched
concluded-known accepting c l e = absurd (omega arith)
concluded-known dispatched c l e = ground (arith, length-append l.awaited (reading ∷ []))
concluded-known reading c l e = received-known c.endpoint c.received l

-- The server waits for no acceptance.
abbrev pub IsDeaf : Listener → Type 0
IsDeaf l = acceptances l.awaited ≡ 0

fails-deaf :
    (op : Awaited) (c : Completion) → (if fails op c then 0 else acceptance op) ≤ acceptance op
fails-deaf accepting c = ground arith
fails-deaf dispatched c = omega arith
fails-deaf reading c = omega arith

advance-IsDeaf :
    (n : ℕ) (c : Completion) (l : Listener)
    → IsDeaf l
    → IsDeaf (advance n c l) × (known (advance n c l) ≤ known l)
unfolding advance
advance-IsDeaf n c l deaf = elim (Option-cases (take_out n l.awaited)) [
  | inl e ↦ rw (advance, e) (deaf, omega arith)
  | inr (w, e) ↦
      (let l' : Listener = record l { awaited = w.1 } in
        let (a, b) = take_out-acceptances n l.awaited w.0 w.1 e in
        rw (advance, e)
          (
            ground (arith, concluded w.0 c l', fails-deaf w.0 c, a),
            ground (arith, concluded-known w.0 c l' (omega arith), b),
          ))
]

serve-IsDeaf :
    (cs : List (ℕ × Completion)) (l : Listener)
    → IsDeaf l
    → IsDeaf (serve cs l) × (known (serve cs l) ≤ known l)
unfolding serve
serve-IsDeaf [] l deaf = (deaf, omega arith)
serve-IsDeaf ((n, c) ∷ cs) l deaf =
    let (d, k) = advance-IsDeaf n c l deaf in
    let (d', k') = serve-IsDeaf cs (advance n c l) d in (d', omega arith)

concluded_waiting :
    (op : Awaited) (c : Completion) (l : Listener)
    → acceptance op + acceptances l.awaited ≡ 1
    → acceptances (conclude op c l).awaited ≡ (if fails op c then 0 else 1)
concluded_waiting accepting c l e = ground (arith, concluded accepting c l)
concluded_waiting dispatched c l e = ground (arith, concluded dispatched c l)
concluded_waiting reading c l e = ground (arith, concluded reading c l)

serve_step :
    (n : ℕ) (c : Completion) (cs : List (ℕ × Completion)) (l : Listener) (op : Awaited)
    (rest : List Awaited) (b : Bool)
    → fails op c ≡ b
    → acceptances (advance n c l).awaited ≡ (if b then 0 else 1)
    → (acceptances (advance n c l).awaited ≡ 1
        → acceptances (serve cs (advance n c l)).awaited
          ≡ (if ever_fails cs (advance n c l) then 0 else 1))
    → acceptances (serve cs (advance n c l)).awaited
      ≡ (if b || ever_fails cs (advance n c l) then 0 else 1)
serve_step n c cs l op rest true f a ih = (serve-IsDeaf cs (advance n c l) a).0
serve_step n c cs l op rest false f a ih = ih a

-- A server that waits for one acceptance waits for one until an acceptance fails, and for none after
-- that.
pub serve-acceptances :
    (cs : List (ℕ × Completion)) (l : Listener)
    → acceptances l.awaited ≡ 1
    → acceptances (serve cs l).awaited ≡ (if ever_fails cs l then 0 else 1)
unfolding serve ever_fails
serve-acceptances [] l one = one
serve-acceptances ((n, c) ∷ cs) l one = elim (Option-cases (take_out n l.awaited)) [
  | inl e ↦
      (let same : advance n c l ≡ l = idle n c l e in
        rw (e, ever_fails)
          (serve-acceptances cs (advance n c l)
            (ap (λ (x : Listener). acceptances x.awaited) same ∙ one)))
  | inr (w, e) ↦
      (let l' : Listener = record l { awaited = w.1 } in
        let (a, b) = take_out-acceptances n l.awaited w.0 w.1 e in
        rw (e, ever_fails)
          (serve_step n c cs l w.0 w.1 (fails w.0 c) refl
            (ap (λ (x : Listener). acceptances x.awaited) (busy n c l w.0 w.1 e)
              ∙ concluded_waiting w.0 c l' (sym a ∙ one))
            (serve-acceptances cs (advance n c l))))
]

-- The server after Run
abbrev pub listening : Listener
listening = accept_next (record { awaited = []; sessions = [] })

-- One failed acceptance ends the service: the server waits for none from then on, and whatever
-- completes afterwards, there are never more sessions and open connections than there were.
pub failed_accept-IsDeaf :
    (cs ds : List (ℕ × Completion))
    → ever_fails cs listening ≡ true
    → IsDeaf (serve ds (serve cs listening))
      × (known (serve ds (serve cs listening)) ≤ known (serve cs listening))
unfolding accept_next
failed_accept-IsDeaf cs ds failed =
    serve-IsDeaf ds (serve cs listening) (serve-acceptances cs listening refl ∙ rw failed refl)
