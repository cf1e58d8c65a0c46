-- ===== src/Examples/Writing.antt =====
-- The theorems on the write queues at concrete inputs.
use render_studio_kit.Shared.{◌≡◌, ◌≢◌, refl, String, true, List, [], ◌∷◌, ◌++◌}
use render_studio_kit.Networking.Queue.{pop, back}
use render_studio_kit.Networking.WebsocketSession
use render_studio_kit.Networking.WebsocketSession.{accepted}
use render_studio_kit.Networking.WebsocketClient.{Client, created, on_handshake}
use render_studio_kit.Networking.InOrder.{opened, sends, session_in_order}
use render_studio_kit.Networking.Stalled.{
  complete_writes, write_all, complete_writes_last, write_all_stalled,
}

-- Three texts, and the end of the first write
session_in_order_example :
    let s =
      WebsocketSession.write
        (WebsocketSession.write (WebsocketSession.write accepted "a") "b")
        "c" in
    s.wire ++ pop s.write_queue ≡ "a" ∷ "b" ∷ "c" ∷ []
session_in_order_example = session_in_order (sends "c" (sends "b" (sends "a" opened)))

-- "a" is being written, and "b" and "c" wait.
abbrev busy : Client
busy = record { write_queue = "a" ∷ "b" ∷ "c" ∷ []; connected = true; wire = "a" ∷ [] }

-- "b" is lost, and "c" is written twice.
complete_writes_last_example : (complete_writes 2 busy).wire ≡ "a" ∷ "c" ∷ "c" ∷ []
unfolding back
complete_writes_last_example = complete_writes_last busy "a" "c" ("b" ∷ "c" ∷ []) refl refl

one-ne-nil : ◌≢◌ {A = List String} ("a" ∷ []) []
one-ne-nil e = cc

write_all_stalled_example :
    let c = write_all (on_handshake (write_all created ("a" ∷ []))) ("b" ∷ []) in
    (c.wire ≡ []) × (c.connected ≡ true) × (c.write_queue ≡ "a" ∷ "b" ∷ [])
write_all_stalled_example = write_all_stalled ("a" ∷ []) ("b" ∷ []) one-ne-nil
