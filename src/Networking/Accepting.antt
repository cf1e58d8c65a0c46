-- ===== src/Networking/Accepting.antt =====
-- Sources/Networking/WebsocketServer.cpp: what a session has called of the logic, and what of its
-- acceptance is pending.
use render_studio_kit.Shared.{
  ℕ, zero, suc, ◌+◌, ◌≡◌, ◌≤◌, ◌⊎◌, refl, ◌∙◌, sym, ap, String, Bool, true, false, List, [], ◌∷◌,
  ◌++◌, some, inl, inr, if◌then◌else◌, Option-cases, arith,
}
use render_studio_kit.Shared.Options.{take_out}
use render_studio_kit.Networking.WebsocketSession as Queued
use render_studio_kit.Networking.SessionConnection.{
  Operation, run_on_strand, accept, Call, connected_call, disconnected_call, message_call, Peer,
  start,
}

abbrev pub all_messages : List String → List Call
all_messages [] = []
all_messages (m ∷ ms) = message_call m ∷ all_messages ms

all_messages-append :
    (ms : List String) (m : String)
    → all_messages (ms ++ m ∷ []) ≡ all_messages ms ++ message_call m ∷ []
all_messages-append [] m = refl
all_messages-append (x ∷ ms) m = ap (λ calls. message_call x ∷ calls) (all_messages-append ms m)

-- The steps of accepting that are pending
unfoldable pub beginning : Operation → ℕ
beginning run_on_strand = 1
beginning accept = 1
beginning _ = 0

unfoldable pub beginnings : List Operation → ℕ
beginnings [] = 0
beginnings (op ∷ ops) = beginning op + beginnings ops

pub beginnings-append :
    (ops : List Operation) (op : Operation)
    → beginnings (ops ++ op ∷ []) ≡ beginnings ops + beginning op
unfolding beginnings
beginnings-append [] op = omega arith
beginnings-append (o ∷ ops) op = ground (arith, beginnings-append ops op)

pub take_out-beginnings :
    (n : ℕ) (ops : List Operation) (op : Operation) (rest : List Operation)
    → take_out n ops ≡ some (op, rest)
    → beginnings ops ≡ beginning op + beginnings rest
unfolding take_out beginnings
take_out-beginnings n [] op rest e = absurd (ground arith)
take_out-beginnings zero (o ∷ ops) op rest e = ground arith
take_out-beginnings (suc n) (o ∷ ops) op rest e = elim (Option-cases (take_out n ops)) [
  | inl f ↦ absurd (ground arith)
  | inr (w, f) ↦ ground (arith, take_out-beginnings n ops w.0 w.1 f)
]

-- Not accepted yet; accepted; ended
abbrev pub IsBefore : List Call → Bool → Type 0
IsBefore calls connected = (connected ≡ false) × (calls ≡ [])

abbrev pub IsOpen : List Call → Bool → Type 0
IsOpen calls connected =
    (connected ≡ true) × ((ms : List String) × (calls ≡ connected_call ∷ all_messages ms))

abbrev pub IsEnded : List Call → Bool → Type 0
IsEnded calls connected =
    (connected ≡ false)
    × ((ms : List String) × (calls ≡ connected_call ∷ (all_messages ms ++ disconnected_call ∷ [])))

abbrev pub IsProtocol : Peer → Type 0
IsProtocol p =
    IsBefore p.calls p.session.connected
    ⊎ (IsOpen p.calls p.session.connected ⊎ IsEnded p.calls p.session.connected)

-- A session is accepted at most once.
abbrev pub IsValid : Peer → Type 0
IsValid p =
    (IsBefore p.calls p.session.connected × (beginnings p.pending ≤ 1))
    ⊎ ((IsOpen p.calls p.session.connected ⊎ IsEnded p.calls p.session.connected)
        × (beginnings p.pending ≡ 0))

pub if-IsValid :
    (b : Bool) (x y : Peer)
    → (b ≡ true → IsValid x)
    → (b ≡ false → IsValid y)
    → IsValid (if b then x else y)
if-IsValid true x y h k = h refl
if-IsValid false x y h k = k refl

-- An operation that is no beginning
pub start-IsValid :
    (op : Operation) (p : Peer) → beginning op ≡ 0 → IsValid p → IsValid (start op p)
start-IsValid op p e (inl (h, k)) = inl (h, ground (arith, beginnings-append p.pending op))
start-IsValid op p e (inr (h, k)) = inr (h, ground (arith, beginnings-append p.pending op))

-- The queue of texts does not matter.
pub moved :
    (p : Peer) (session : Queued.Session)
    → session.connected ≡ p.session.connected
    → IsValid p
    → IsValid (record p { session = session })
moved p session e (inl (h, k)) = inl ((e ∙ h.0, h.1), k)
moved p session e (inr (inl h, k)) = inr (inl (e ∙ h.0, h.1), k)
moved p session e (inr (inr h, k)) = inr (inr (e ∙ h.0, h.1), k)

pub write-connected :
    (s : Queued.Session) (message : String) → (Queued.write s message).connected ≡ s.connected
unfolding Queued.write
write-connected s message = ground arith

pub on_write-connected : (s : Queued.Session) → (Queued.on_write s false).connected ≡ s.connected
unfolding Queued.on_write
on_write-connected s = ground arith

pub connected-IsOpen :
    (p : Peer)
    → IsValid p
    → p.session.connected ≡ true
    → IsOpen p.calls p.session.connected × (beginnings p.pending ≡ 0)
connected-IsOpen p (inl (h, k)) e = absurd (ground (arith, h))
connected-IsOpen p (inr (inl h, k)) e = (h, k)
connected-IsOpen p (inr (inr h, k)) e = absurd (ground (arith, h))

pub more_messages :
    (message : String) (p : Peer)
    → IsOpen p.calls p.session.connected
    → IsOpen (p.calls ++ message_call message ∷ []) p.session.connected
more_messages message p (c, (ms, e)) = (
  c,
  (
    ms ++ message ∷ [],
    ap (λ calls. calls ++ message_call message ∷ []) e
        ∙ ap (λ calls. connected_call ∷ calls) (sym (all_messages-append ms message)),
  ),
)
