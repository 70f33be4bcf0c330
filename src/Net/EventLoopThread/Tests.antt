-- ===== src/Net/EventLoopThread/Tests.antt =====
-- A start of net/EventLoopThread.cpp where the caller waits, and one where the loop ends too soon.
use learning_tools.Prelude.{◌≡◌, refl, true, false, none, some}
use learning_tools.Net.EventLoopThread.{
  starting, looping, ended, blocked, awake, passed, returned, LoopThread, init, start_loop,
  test_loop, return_loop, set_loop, end_thread, starts, tests, returns, sets, ends, others_quit,
  Reach, start, next,
}
use learning_tools.Net.EventLoopThread.Started.{is_served, Reach-is_served}

abbrev begun : LoopThread
begun = record { loop = none; thread = starting; caller = awake; quits = false }

abbrev waiting : LoopThread
waiting = record begun { caller = blocked }

abbrev up : LoopThread
up = record { loop = some 7; thread = looping; caller = awake; quits = false }

abbrev seen : LoopThread
seen = record up { caller = passed }

abbrev done : LoopThread
done = record up { caller = returned (some 7) }

usual : Reach 7 done
unfolding init start_loop test_loop set_loop return_loop
usual =
    next {t = seen}
      (next {t = up}
        (next {t = waiting}
          (next {t = begun} (next {t = init} start (starts init refl)) (tests begun refl))
          (sets waiting refl))
        (tests up refl))
      (returns seen refl)

Reach-is_served_example : is_served 7 done.thread done.caller ≡ true
Reach-is_served_example = Reach-is_served usual refl

-- The function that is run before the loop makes it quit: the caller may come too late, and wait for ever.
abbrev told : LoopThread
told = record begun { quits = true }

abbrev short : LoopThread
short = record up { quits = true }

abbrev over : LoopThread
over = record short { loop = none; thread = ended }

too_late : Reach 7 (record over { caller = blocked })
unfolding init start_loop test_loop set_loop end_thread
too_late =
    next {t = over}
      (next {t = short}
        (next {t = told}
          (next {t = begun} (next {t = init} start (starts init refl)) (others_quit begun))
          (sets told refl))
        (ends short refl refl))
      (tests over refl)
