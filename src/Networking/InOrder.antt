-- ===== src/Networking/InOrder.antt =====
-- Sources/Networking/WebsocketServer.cpp: a session of the server writes every text once, in order.
use mathlib.Core.List.{append-nil, append_assoc}
use render_studio_kit.Shared.{
  ◌≡◌, ◌≢◌, refl, String, true, false, List, [], ◌∷◌, ◌++◌, some, arith, length-append,
}
use render_studio_kit.Networking.Queue.{pop, back}
use render_studio_kit.Networking.WebsocketSession.{Session, accepted, write, on_write}

-- The session, the texts that Send was given so far, and what may happen next: another text, or the
-- end of the write in progress, of which the text is at the front of the queue.
pub data Run : List String → Session → Type 0 where
  opened : Run [] accepted
  sends :
      {sent : List String} {s : Session} (message : String)
      → Run sent s
      → Run (sent ++ message ∷ []) (write s message)
  completes :
      {sent : List String} {s : Session}
      → Run sent s
      → s.write_queue ≢ []
      → Run sent (on_write s false)

record InOrder (sent : List String) (s : Session) : Type 0 where
  up : s.connected ≡ true
  complete : s.wire ++ pop s.write_queue ≡ sent

back-append : (q : List String) (m : String) → back (q ++ m ∷ []) ≡ some m
unfolding back
back-append [] m = refl
back-append (x ∷ []) m = refl
back-append (x ∷ y ∷ q) m = back-append (y ∷ q) m

write-InOrder :
    (sent : List String) (s : Session) (q : List String) (m : String)
    → s.write_queue ≡ q
    → InOrder sent s
    → InOrder (sent ++ m ∷ []) (write s m)
unfolding write back
write-InOrder sent s [] m e i = ground (arith, append-nil s.wire, append-nil (s.wire ++ m ∷ []))
write-InOrder sent s (x ∷ q) m e i =
    ground (arith, length-append q (m ∷ []), append_assoc s.wire q (m ∷ []))

on_write-InOrder :
    (sent : List String) (s : Session) (q : List String)
    → s.write_queue ≡ q
    → q ≢ []
    → InOrder sent s
    → InOrder sent (on_write s false)
unfolding on_write
on_write-InOrder sent s [] e ne i = absurd (ne refl)
on_write-InOrder sent s (x ∷ []) e ne i = ground (arith, i.up, append-nil s.wire)
on_write-InOrder sent s (x ∷ y ∷ q) e ne i = ground (arith, i.up, append_assoc s.wire (y ∷ []) q)

Run-InOrder : {sent : List String} {s : Session} → Run sent s → InOrder sent s
Run-InOrder opened = record { up = refl; complete = refl }
Run-InOrder (sends {sent} {s} message r) =
    write-InOrder sent s s.write_queue message refl (Run-InOrder r)
Run-InOrder (completes {sent} {s} r busy) =
    on_write-InOrder sent s s.write_queue refl busy (Run-InOrder r)

-- However sends and completions of writes interleave, what a session of the server has handed to the
-- socket, followed by the queue behind the write in progress, is what it was given to send: nothing is
-- lost, written twice or written out of order.
pub session_in_order :
    {sent : List String} {s : Session} → Run sent s → s.wire ++ pop s.write_queue ≡ sent
session_in_order r = (Run-InOrder r).complete
