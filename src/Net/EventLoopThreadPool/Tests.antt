-- ===== src/Net/EventLoopThreadPool/Tests.antt =====
-- A pool of three loops.
use learning_tools.Prelude.{◌≡◌, refl, arith, true, [], ◌∷◌, some}
use learning_tools.Net.EventLoopThreadPool.{Pool}
use learning_tools.Net.EventLoopThreadPool.RoundRobin.{after, answers, turns, get_next_loop-round}

abbrev three : Pool
three = record {
  base_loop = some 10;
  started = true;
  num_threads = 3;
  next = 0;
  loops = 11 ∷ 12 ∷ 13 ∷ [];
}

get_next_loop-round_example :
    (answers 3 three ≡ turns (11 ∷ 12 ∷ 13 ∷ [])) × (after 3 three ≡ three)
get_next_loop-round_example = get_next_loop-round three refl refl (omega arith)
