-- ===== src/Net/Channel/Tests.antt =====
-- Runs of a channel at concrete inputs.
use learning_tools.Prelude.{◌≡◌, refl, true, not, ◌||◌, ◌&&◌, [], ◌∷◌}
use learning_tools.Net.Channel.{Channel, init, close, error, handle_event, handle_event_with_guard}
use learning_tools.Net.Channel.Dispatch.{Ordered, calls, is_wanted, handle_event_lem}

-- Hung up with an error, and with room to write; the owner is tied.
abbrev broken : Channel
broken = record (init 1 4) {
  revents = 28;
  tied = true;
  close_callback = true;
  error_callback = true;
  read_callback = true;
}

broken_calls : handle_event broken true ≡ close ∷ error ∷ []
unfolding handle_event handle_event_with_guard
broken_calls = refl

handle_event_lem_example :
    Ordered (handle_event broken true)
    × (calls (handle_event broken true) close
        ≡ ((not broken.tied || true) && is_wanted broken close))
handle_event_lem_example = handle_event_lem broken true close
