-- ===== src/Net/TcpConnection/Tests.antt =====
-- A connection over a poller that grants everything, and its theorems at inputs that meet their
-- hypotheses.
use learning_tools.Prelude.{◌≡◌, refl, arith, true, false, List, [], ◌∷◌, ◌++◌}
use learning_tools.Prelude.Slices.{slice, write_at}
use learning_tools.Net.Buffer.{
  Buffer, readable_bytes, append, ensure_writable_bytes, writable_bytes, has_written, copy_in,
}
use learning_tools.Net.Buffer.Contents.{contents}
use learning_tools.Net.Channel.{
  Channel, Polling, enable_reading, enable_writing, disable_writing, disable_all,
}
use learning_tools.Net.Channel
use learning_tools.Net.TcpConnection.{
  Connection, connecting, connected, wrote, connect_established, send, send_in_loop, after_write,
  keep_rest,
}
use learning_tools.Net.TcpConnection.Stream.{sent_of}
use learning_tools.Net.TcpConnection.Wire.{
  Event, established, sends, writable, shuts, step, runs, all_accepted, AreAnswered, IsAnswered,
  demands, demand, Ready,
}
use learning_tools.Net.TcpConnection.Setup.{init-runs}
use learning_tools.Net.TcpConnection.Setup
use learning_tools.Net.Buffer
use learning_tools.Prelude.{◌<◌, ◌^◌}
use learning_tools.Net.TcpConnection.Interest.{IsAwake}

abbrev granting : Polling
granting = record {
  State = Unit {0};
  update = λ s c. (true, (c, s));
  remove_channel = λ s c. (c, s);
  update-events = λ s c. refl;
}

abbrev buffer : Buffer
buffer = record {
  storage = 0 ∷ 0 ∷ 0 ∷ 0 ∷ 0 ∷ 0 ∷ 0 ∷ 0 ∷ 0 ∷ 0 ∷ 0 ∷ 0 ∷ [];
  reader_index = 8;
  writer_index = 8;
}

abbrev fresh : Connection granting
fresh = record {
  state = connecting;
  channel = Channel.init 1 5;
  poller = tt;
  output = buffer;
  input = buffer;
  high_water_mark = 67108864;
  has_high_water = false;
  has_write_complete = true;
}

-- The kernel takes one byte of the first call; the second call waits; then two of the three waiting
-- bytes go out, and the connection shuts down.
abbrev life : List Event
life =
    established
    ∷ sends (1 ∷ 2 ∷ 3 ∷ []) (wrote 1)
    ∷ sends (4 ∷ []) (wrote 1)
    ∷ writable (wrote 2)
    ∷ shuts
    ∷ []

answered : AreAnswered granting life fresh
unfolding AreAnswered IsAnswered step connect_established send send_in_loop after_write keep_rest
    contents slice append ensure_writable_bytes writable_bytes readable_bytes has_written copy_in
    write_at enable_reading enable_writing
answered = (tt, (omega arith, (omega arith, (omega arith, (tt, tt)))))

life-Ready : Ready granting (demands granting life) fresh
unfolding demands demand
life-Ready = (omega arith, (omega arith, omega arith))

nothing_waits : IsAwake granting fresh
unfolding readable_bytes
nothing_waits = refl

-- Two bytes wait for room to write.
abbrev busy : Connection granting
busy = record fresh {
  state = connected;
  channel = record (Channel.init 1 5) { events = 7 };
  output = record buffer { writer_index = 10 };
}

-- The same from the constructor: all but one byte go out, and the connection shuts down.
abbrev short_life : List Event
short_life = established ∷ sends (1 ∷ 2 ∷ 3 ∷ []) (wrote 2) ∷ shuts ∷ []

short_answered : AreAnswered granting short_life (Setup.init granting tt 1 5)
unfolding AreAnswered IsAnswered step connect_established send send_in_loop after_write keep_rest
    readable_bytes enable_reading enable_writing Setup.init Buffer.init
short_answered = (tt, (omega arith, (tt, tt)))

short_demands : demands granting short_life < 2 ^ 62
unfolding demands demand
short_demands = omega arith

init-runs_example :
    (sent_of (runs granting short_life (Setup.init granting tt 1 5)).1
        ++ contents (runs granting short_life (Setup.init granting tt 1 5)).0.output
      ≡ all_accepted granting short_life (Setup.init granting tt 1 5))
    × IsAwake granting (runs granting short_life (Setup.init granting tt 1 5)).0
init-runs_example = init-runs granting tt 1 5 short_life short_demands short_answered
