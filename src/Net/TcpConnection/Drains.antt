-- ===== src/Net/TcpConnection/Drains.antt =====
-- net/TcpConnection.cpp: shutting down waits for the output.
use learning_tools.Prelude.{
  ℕ, ◌+◌, Bool, true, ◌&&◌, ltb, if◌then◌else◌, List, [], ◌∷◌, ◌++◌, take, drop,
}
use learning_tools.Net.Buffer.{Buffer}
use learning_tools.Net.Channel.{Polling}
use learning_tools.Net.TcpConnection.{
  wrote, Effect, sent, write_complete, shut_down_write, Connection,
}
use learning_tools.Net.TcpConnection.Wire.{Event, writable}

-- Rounds in which the socket takes so many bytes, and what each sends of the text.
pub writes : List ℕ → List Event
writes [] = []
writes (n ∷ ns) = writable (wrote n) ∷ writes ns

pub pieces : List ℕ → List ℕ → List Effect
pieces [] text = []
pieces (n ∷ ns) text = sent (take n text) ∷ pieces ns (drop n text)

unfoldable pub total : List ℕ → ℕ
total [] = 0
total (n ∷ ns) = n + total ns

unfoldable pub all_positive : List ℕ → Bool
all_positive [] = true
all_positive (n ∷ ns) = ltb 0 n && all_positive ns

module _ (p : Polling) where
  -- What follows the last byte.
  abbrev pub closing : Connection p → List Effect
  closing c = (if c.has_write_complete then write_complete ∷ [] else []) ++ shut_down_write ∷ []
