-- ===== src/Base/CountDownLatch.antt =====
-- base/CountDownLatch.cpp: threads that wait until others have counted down. What happens between two changes of
-- the mutex is one step. A thread that was notified, or woke up by itself, has to test the count again.
pub mod Released
mod Tests
use learning_tools.Prelude.Int.{ℤ, pos, negsuc, ◌-ℤ◌, ltb_ℤ}
use learning_tools.Prelude.{ℕ, zero, suc, ◌+◌, ◌≡◌, Bool, true, false, if◌then◌else◌}

-- The threads inside `wait` are counted: those blocked on `condition_`, those awake, and those that left.
pub record Latch : Type 0 where
  pub count : ℤ
  pub blocked : ℕ
  pub awake : ℕ
  pub returned : ℕ

unfoldable pub init : ℤ → Latch
init count = record { count = count; blocked = 0; awake = 0; returned = 0 }

-- The test of the loop in `wait`, by a thread that holds the mutex.
unfoldable pub test_count : Latch → Latch
test_count l =
    if ltb_ℤ (pos 0) l.count
    then record l { blocked = l.blocked + 1 }
    else record l { returned = l.returned + 1 }

unfoldable pub notify_all : Latch → Latch
notify_all l = record l { blocked = 0; awake = l.awake + l.blocked }

abbrev pub is_zero : ℤ → Bool
is_zero (pos zero) = true
is_zero (pos (suc n)) = false
is_zero (negsuc n) = false

unfoldable pub count_down : Latch → Latch
unfolding notify_all ◌-ℤ◌
count_down l =
    let l' = record l { count = l.count -ℤ pos 1 } in if is_zero l'.count then notify_all l' else l'

-- A step, and how many calls of `countDown` it is.
pub data Step : Latch → Latch → ℕ → Type 0 where
  waits : (l : Latch) → Step l (test_count l) 0
  counts_down : (l : Latch) → Step l (count_down l) 1
  tests_again :
      (l : Latch) (n : ℕ) → l.awake ≡ suc n → Step l (test_count (record l { awake = n })) 0
  wakes_up :
      (l : Latch) (n : ℕ)
      → l.blocked ≡ suc n
      → Step l (record l { blocked = n; awake = l.awake + 1 }) 0

pub data Reach (count : ℤ) : Latch → ℕ → Type 0 where
  start : Reach count (init count) 0
  next :
      {l l' : Latch} {downs n downs' : ℕ}
      → Reach count l downs
      → Step l l' n
      → downs' ≡ downs + n
      → Reach count l' downs'
