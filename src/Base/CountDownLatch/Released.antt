-- ===== src/Base/CountDownLatch/Released.antt =====
-- base/CountDownLatch.cpp: when the threads that wait go on.
use learning_tools.Prelude.Int.{pos, pos_part, neg_part, ◌-ℤ◌}
use learning_tools.Prelude.{ℕ, ◌+◌, ◌≡◌, arith, false, not, ◌&&◌, ◌==◌, ltb, if◌then◌else◌}
use learning_tools.Base.CountDownLatch.{
  Latch, init, test_count, notify_all, count_down, Step, waits, counts_down, tests_again, wakes_up,
  Reach, start, next,
}

-- After `downs` calls of countDown, of a latch that began with `n`.
abbrev Inv : ℕ → ℕ → Latch → Type 0
Inv n downs l =
    (pos_part l.count + downs ≡ n + neg_part l.count)
    × ((ltb downs n && not (l.returned == 0)) ≡ false)
    × ((not (ltb downs n) && not (l.blocked == 0)) ≡ false)

module _ (n downs : ℕ) where
  test_count-Inv : (l : Latch) → Inv n downs l → Inv n downs (test_count l)
  unfolding test_count
  test_count-Inv l (c, r, b) = ground (arith, c, r, b)

  count_down-Inv : (l : Latch) → Inv n downs l → Inv n (downs + 1) (count_down l)
  unfolding count_down notify_all ◌-ℤ◌
  count_down-Inv l (c, r, b) = ground (arith, c, r, b)

  -- `d` is the number of the calls after the step.
  step-Inv : {l l' : Latch} {k d : ℕ} → Inv n downs l → Step l l' k → d ≡ downs + k → Inv n d l'
  step-Inv {d = d} inv (waits l) e = let inv' = test_count-Inv l inv in ground (arith, inv', e)
  step-Inv {d = d} inv (counts_down l) e =
      let inv' = count_down-Inv l inv in ground (arith, inv', e)
  step-Inv {d = d} (c, r, b) (tests_again l m f) e =
      let inv' = test_count-Inv (record l { awake = m }) (c, r, b) in ground (arith, inv', e)
  step-Inv {d = d} (c, r, b) (wakes_up l m f) e = ground (arith, c, r, b, f, e)

Reach-Inv : {n downs : ℕ} {l : Latch} → Reach (pos n) l downs → Inv n downs l
unfolding init
Reach-Inv start = (omega arith, ground arith, ground arith)
Reach-Inv {n = n} (next {downs = downs} {n = k} r s e) = step-Inv n downs (Reach-Inv r) s e

-- In any order of the steps of any threads, for a latch that begins with `n`: as long as countDown was called fewer
-- than `n` times, no call of wait has returned, and from the call number `n` on no thread is blocked.
pub Reach-released :
    {n downs : ℕ} {l : Latch}
    → Reach (pos n) l downs
    → (if ltb downs n then l.returned else l.blocked) ≡ 0
Reach-released r = let inv = Reach-Inv r in ground (arith, inv)
