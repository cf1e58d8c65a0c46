-- ===== src/Examples/Accepting.antt =====
-- The theorems on the server that accepts connections at concrete inputs.
use render_studio_kit.Shared.{ℕ, ◌≡◌, ◌≤◌, refl, true, false, List, [], ◌∷◌, length}
use render_studio_kit.Shared.Options.{take_out}
use render_studio_kit.Shared.Texts.{codes}
use render_studio_kit.Networking.Listener.{
  Completion, request, end_of_stream, accept_next, on_accepted, on_dispatched, on_received,
  conclude, advance, serve,
}
use render_studio_kit.Networking.Listening.{
  ever_fails, IsDeaf, known, listening, failed_accept-IsDeaf,
}

abbrev quiet : Completion
quiet = record { failed = false; received = end_of_stream; endpoint = [] }

abbrev failure : Completion
failure = record { failed = true; received = end_of_stream; endpoint = [] }

abbrev joining : Completion
joining = record {
  failed = false;
  received = request (codes "/room?user=ann") true;
  endpoint = codes "127.0.0.1";
}

-- One client connects and asks for an upgrade; then the next acceptance fails.
abbrev first_client : List (ℕ × Completion)
first_client = (0, quiet) ∷ (0, quiet) ∷ (1, joining) ∷ (0, failure) ∷ []

one_session : length (serve first_client listening).sessions ≡ 1
unfolding take_out accept_next on_accepted on_dispatched on_received conclude advance serve
one_session = refl

failed_accept-IsDeaf_example :
    IsDeaf (serve first_client (serve first_client listening))
    × (known (serve first_client (serve first_client listening))
        ≤ known (serve first_client listening))
unfolding take_out accept_next on_accepted on_dispatched on_received conclude advance ever_fails
failed_accept-IsDeaf_example = failed_accept-IsDeaf first_client first_client refl
