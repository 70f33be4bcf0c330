-- ===== src/Net/Connector/Tests.antt =====
-- Runs of the connector at concrete inputs, and its theorems at inputs that meet their hypotheses.
use learning_tools.Prelude.{◌+◌, ◌≡◌, refl, false, List, [], ◌∷◌, some}
use learning_tools.Net.Connector.{
  Connector, init, in_progress, Effect, restart, start, start_in_loop, connect, start_connecting,
  retry, handle_write, hand_over, handle_error, retry_channel, reset_channel,
}
use learning_tools.Net.Connector.Sockets.{
  Event, starts, restarts, errors, resets, writes, runs, step, IsWhole, AreTimely, AreTimelyAfter,
  held, openings, partings, runs-balance,
}

-- The first socket fails, the second one connects.
abbrev attempts : List Event
attempts = starts 7 in_progress ∷ errors ∷ resets ∷ restarts 8 in_progress ∷ writes false false ∷ []

attempts_timely : AreTimely attempts init
unfolding AreTimely AreTimelyAfter step init start start_in_loop connect start_connecting
    handle_error retry_channel retry reset_channel restart handle_write hand_over
attempts_timely = (tt, (tt, (refl, (refl, (tt, tt)))))

init-IsWhole : IsWhole init
unfolding init
init-IsWhole = refl

runs-balance_example :
    (c : Connector) × ((effects : List Effect) × (runs attempts init ≡ some (c, effects))
      × (held 8 init + openings 8 effects ≡ partings 8 effects + held 8 c))
runs-balance_example = runs-balance 8 attempts init init-IsWhole attempts_timely
