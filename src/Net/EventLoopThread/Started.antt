-- ===== src/Net/EventLoopThread/Started.antt =====
-- net/EventLoopThread.cpp: what startLoop waits for and gives.
use learning_tools.Prelude.{
  ℕ, ◌≡◌, refl, arith, Bool, true, false, ◌&&◌, ◌||◌, ◌==◌, Option, none, some,
}
use learning_tools.Net.EventLoopThread.{
  Thread, absent, starting, looping, ended, Caller, outside, blocked, awake, passed, returned,
  LoopThread, init, start_loop, test_loop, return_loop, set_loop, end_thread, quit_loop, Step,
  starts, tests, wakes_up, returns, sets, ends, stops, others_quit, Reach, start, next,
}

abbrev pub is_loop : ℕ → Option ℕ → Bool
is_loop address none = false
is_loop address (some a) = a == address

-- What a caller at this place may rely on as long as the loop was not told to quit.
abbrev pub is_served : ℕ → Thread → Caller → Bool
is_served address th outside = true
is_served address absent blocked = false
is_served address starting blocked = true
is_served address looping blocked = false
is_served address ended blocked = false
is_served address th awake = true
is_served address th passed = true
is_served address th (returned r) = is_loop address r

-- `loop_` is set just while the loop runs; a caller that is behind the wait has seen it.
abbrev is_sound : ℕ → Thread → Caller → Option ℕ → Bool
is_sound address absent outside none = true
is_sound address absent c l = false
is_sound address starting blocked none = true
is_sound address starting awake none = true
is_sound address starting c l = false
is_sound address looping outside l = false
is_sound address looping blocked l = false
is_sound address looping awake l = is_loop address l
is_sound address looping passed l = is_loop address l
is_sound address looping (returned r) l = is_loop address l && is_loop address r
is_sound address ended c l = false

abbrev Sound : ℕ → LoopThread → Type 0
Sound address t = (t.quits || is_sound address t.thread t.caller t.loop) ≡ true

step-Sound :
    (address : ℕ) {t t' : LoopThread} → Sound address t → Step address t t' → Sound address t'
unfolding start_loop test_loop return_loop set_loop end_thread quit_loop
step-Sound address inv (starts t e) = ground (arith, inv, e)
step-Sound address inv (tests t e) = ground (arith, inv, e)
step-Sound address inv (wakes_up t e) = ground (arith, inv, e)
step-Sound address inv (returns t e) = ground (arith, inv, e)
step-Sound address inv (sets t e) = ground (arith, inv, e)
step-Sound address inv (ends t e q) = ground (arith, q)
step-Sound address inv (stops t) = ground (arith, inv)
step-Sound address inv (others_quit t) = refl

Reach-Sound : {address : ℕ} {t : LoopThread} → Reach address t → Sound address t
unfolding init
Reach-Sound start = refl
Reach-Sound {address} (next r s) = step-Sound address (Reach-Sound r) s

-- In any order of the steps, as long as nobody told the loop to quit: the caller of startLoop is blocked only while the
-- new thread has not set `loop_`, so that no notification is lost; and what startLoop returned is the loop of
-- that thread.
pub Reach-is_served :
    {address : ℕ} {t : LoopThread}
    → Reach address t
    → t.quits ≡ false
    → is_served address t.thread t.caller ≡ true
Reach-is_served {address} {t} r q = let inv = Reach-Sound r in ground (arith, inv, q)
