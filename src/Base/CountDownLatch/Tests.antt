-- ===== src/Base/CountDownLatch/Tests.antt =====
-- A latch of base/CountDownLatch.cpp that begins with 1.
use learning_tools.Prelude.Int.{pos, ◌-ℤ◌}
use learning_tools.Prelude.{◌≡◌, refl, ltb, if◌then◌else◌}
use learning_tools.Base.CountDownLatch.{
  Latch, init, test_count, notify_all, count_down, waits, counts_down, tests_again, Reach, start,
  next,
}
use learning_tools.Base.CountDownLatch.Released.{Reach-released}

abbrev first : Latch
first = record { count = pos 1; blocked = 0; awake = 0; returned = 0 }

abbrev waiting : Latch
waiting = record first { blocked = 1 }

abbrev notified : Latch
notified = record first { count = pos 0; awake = 1 }

abbrev last : Latch
last = record first { count = pos 0; returned = 1 }

-- A thread waits, another counts down, and the first goes on.
one_day : Reach (pos 1) last 1
unfolding init test_count count_down notify_all ◌-ℤ◌
one_day =
    next {l = notified}
      (next {l = waiting} (next {l = first} start (waits first) refl) (counts_down waiting) refl)
      (tests_again notified 0 refl) refl

Reach-released_example : (if ltb 1 1 then last.returned else last.blocked) ≡ 0
Reach-released_example = Reach-released one_day
