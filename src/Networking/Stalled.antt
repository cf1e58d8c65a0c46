-- ===== src/Networking/Stalled.antt =====
-- Sources/Networking/WebsocketClient.cpp: where the write queue of the client loses texts, writes a
-- text twice, or comes to a halt.
use mathlib.Core.List.{append-nil, append_assoc}
use render_studio_kit.Shared.{
  ℕ, zero, suc, ◌≡◌, ◌≢◌, refl, ◌∙◌, ap, sym, String, true, false, List, [], ◌∷◌, ◌++◌, some, arith,
  length, length-append,
}
use render_studio_kit.Networking.Queue.{back}
use render_studio_kit.Networking.WebsocketClient.{Client, created, on_handshake, write, on_write}

-- So many writes complete, one after the other, and nothing is sent in between.
unfoldable pub complete_writes : ℕ → Client → Client
complete_writes zero c = c
complete_writes (suc n) c = complete_writes n (on_write c false)

-- The texts are sent one after the other.
unfoldable pub write_all : Client → List String → Client
write_all c [] = c
write_all c (m ∷ ms) = write_all (write c m) ms

abbrev pub replicate : ℕ → String → List String
replicate zero m = []
replicate (suc n) m = m ∷ replicate n m

pop_writes :
    (q : List String) (a m : String) (c : Client)
    → c.write_queue ≡ a ∷ q
    → back q ≡ some m
    → (complete_writes (length q) c).wire ≡ c.wire ++ replicate (length q) m
unfolding complete_writes on_write back
pop_writes [] a m c e b = cc
pop_writes (x ∷ []) a m c e b = ground arith
pop_writes (x ∷ y ∷ q) a m c e b =
    let c' = on_write c false in
    let e' : c'.write_queue ≡ x ∷ y ∷ q = ground arith in
    let w : c'.wire ≡ c.wire ++ m ∷ [] = ground arith in
    pop_writes (y ∷ q) x m c' e' b
    ∙ ap (λ (l : List String). l ++ replicate (suc (length q)) m) w
    ∙ append_assoc c.wire (m ∷ []) (replicate (suc (length q)) m)

-- While one text is being written, others queue up behind it, the last of them m. When the writes have
-- completed, the client has written m once for each of the queued texts, in their place: the texts
-- before m are lost, and m is written as often as there were texts.
pub complete_writes_last :
    (c : Client) (a m : String) (q : List String)
    → c.write_queue ≡ a ∷ q
    → back q ≡ some m
    → (complete_writes (length q) c).wire ≡ c.wire ++ replicate (length q) m
complete_writes_last c a m q e b = pop_writes q a m c e b

write-idle :
    (c : Client) (m : String)
    → c.connected ≡ false
    → ((write c m).wire ≡ c.wire)
      × ((write c m).connected ≡ false)
      × ((write c m).write_queue ≡ c.write_queue ++ m ∷ [])
unfolding write
write-idle c m h = ground arith

write_all-idle :
    (c : Client) (ms : List String)
    → c.connected ≡ false
    → let d = write_all c ms in
      (d.wire ≡ c.wire) × (d.connected ≡ false) × (d.write_queue ≡ c.write_queue ++ ms)
unfolding write_all
write_all-idle c [] h = (refl, h, ground (arith, append-nil c.write_queue))
write_all-idle c (m ∷ ms) h =
    let w = write-idle c m h in
    ground (arith, write_all-idle (write c m) ms w.1, append_assoc c.write_queue (m ∷ []) ms)

append-ne-nil : (q : List String) (m : String) → (q ++ m ∷ []) ≢ []
append-ne-nil [] m e = cc
append-ne-nil (x ∷ q) m e = cc

write-behind :
    (c : Client) (q : List String) (m : String)
    → c.write_queue ≡ q
    → q ≢ []
    → ((write c m).wire ≡ c.wire)
      × ((write c m).connected ≡ c.connected)
      × ((write c m).write_queue ≡ c.write_queue ++ m ∷ [])
unfolding write
write-behind c [] m e h = absurd (h refl)
write-behind c (x ∷ q) m e h = ground (arith, length-append q (m ∷ []))

write_all-behind :
    (c : Client) (ms : List String)
    → c.write_queue ≢ []
    → let d = write_all c ms in
      (d.wire ≡ c.wire) × (d.connected ≡ c.connected) × (d.write_queue ≡ c.write_queue ++ ms)
unfolding write_all
write_all-behind c [] h = (refl, refl, ground (arith, append-nil c.write_queue))
write_all-behind c (m ∷ ms) h =
    let w = write-behind c c.write_queue m refl h in
    ground (
      arith,
      w,
      write_all-behind (write c m) ms (λ e. append-ne-nil c.write_queue m (sym w.2 ∙ e)),
      append_assoc c.write_queue (m ∷ []) ms,
    )

-- A client that is given a text before the handshake never writes anything afterwards: no write is
-- started by the handshake, and every later text only joins the queue.
pub write_all_stalled :
    (early later : List String)
    → early ≢ []
    → let c = write_all (on_handshake (write_all created early)) later in
      (c.wire ≡ []) × (c.connected ≡ true) × (c.write_queue ≡ early ++ later)
unfolding on_handshake
write_all_stalled early later h =
    let i = write_all-idle created early refl in
    ground (
      arith,
      i,
      write_all-behind (on_handshake (write_all created early)) later (λ e. h (sym i.2 ∙ e)),
    )
