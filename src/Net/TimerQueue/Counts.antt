-- ===== src/Net/TimerQueue/Counts.antt =====
-- net/Timer.cpp and net/TimerQueue.cpp: how often a timer is called.
use learning_tools.Prelude.{
  ℕ, zero, suc, ◌+◌, ◌≡◌, refl, ap, ◌∙◌, arith, inl, inr, Bool-cases, if◌then◌else◌, List, [], ◌∷◌,
  ◌++◌, leb, min, replicate,
}
use native.Mathlib.Nat.{add-zero}
use learning_tools.Prelude.Int.{ℤ, pos, negsuc}
use learning_tools.Net.TimerQueue.{
  Entry, init, run, do_timer, set_insert, insert, add_timer_copied, add_timer_moved, run_at_copied,
  run_at_moved,
}

-- One run of the loop after the other, at the times given: all calls, in order.
unfoldable pub runs : List ℕ → List Entry → List ℕ
runs [] es = []
runs (now ∷ times) es = let (ids, rest) = do_timer es now in ids ++ runs times rest

entry : ℕ → ℕ → ℕ → ℕ → ℤ → Entry
entry key address when interval count = record {
  when = key;
  timer = init address when interval count;
}

runs-nothing : (times : List ℕ) → runs times [] ≡ []
unfolding runs do_timer
runs-nothing [] = refl
runs-nothing (now ∷ times) = runs-nothing times

-- How many of the runs find a timer due that each such run calls and puts off by the interval.
pub due_runs : ℕ → ℕ → List ℕ → ℕ
due_runs when interval [] = 0
due_runs when interval (now ∷ times) =
    let again = due_runs (when + interval) interval times in
    let waiting = due_runs when interval times in if leb when now then suc again else waiting

-- The times from `when` on.
pub reached : ℕ → List ℕ → ℕ
reached when [] = 0
reached when (now ∷ times) =
    let rest = reached when times in if leb when now then suc rest else rest

no_calls : (n address : ℕ) → [] ≡ replicate (min n 0) address
no_calls n address =
    let nothing : 0 ≡ min n 0 = omega arith in ap (λ (k : ℕ). replicate k address) nothing

never : (l address : ℕ) → [] ≡ replicate (min 0 l) address
never l address =
    let nothing : 0 ≡ min 0 l = omega arith in ap (λ (k : ℕ). replicate k address) nothing

one_more :
    (n l address : ℕ)
    → address ∷ replicate (min n l) address ≡ replicate (min (suc n) (suc l)) address
one_more n l address =
    let more : suc (min n l) ≡ min (suc n) (suc l) = omega arith in
    ap (λ (k : ℕ). replicate k address) more

finite :
    (times : List ℕ) (key address when interval n : ℕ)
    → runs times (entry key address when interval (pos (suc n)) ∷ [])
      ≡ replicate (min (suc n) (due_runs when interval times)) address
unfolding runs do_timer run entry due_runs
finite [] key address when interval n = no_calls (suc n) address
finite (now ∷ times) key address when interval zero = elim (Bool-cases (leb when now)) [
  | inl due ↦
      let over = runs-nothing times ∙ never (due_runs (when + interval) interval times) address in
      rw due (
        ap (λ ids. address ∷ ids) over
        ∙ one_more 0 (due_runs (when + interval) interval times) address)
  | inr early ↦ rw early (finite times key address when interval zero)
]
finite (now ∷ times) key address when interval (suc n) = elim (Bool-cases (leb when now)) [
  | inl due ↦
      let rest = finite times key address (when + interval) interval n in
      rw due (
        ap (λ ids. address ∷ ids) rest
        ∙ one_more (suc n) (due_runs (when + interval) interval times) address)
  | inr early ↦ rw early (finite times key address when interval (suc n))
]

forever :
    (times : List ℕ) (key address when interval : ℕ)
    → runs times (entry key address when interval (negsuc 0) ∷ [])
      ≡ replicate (due_runs when interval times) address
unfolding runs do_timer run entry due_runs
forever [] key address when interval = refl
forever (now ∷ times) key address when interval = elim (Bool-cases (leb when now)) [
  | inl due ↦
      rw due (ap (λ ids. address ∷ ids) (forever times key address (when + interval) interval))
  | inr early ↦ rw early (forever times key address when interval)
]

-- Whatever the times of the runs, with the timer in an otherwise empty queue: one added with a moved callback and
-- a count of n + 1 is called at the first n + 1 runs that find it due, and at no other run; one added with the
-- count -1 at every run that finds it due. Due means that its time is reached, which each call puts off by the interval.
pub runs-add_timer_moved :
    (times : List ℕ) (address when interval n : ℕ)
    → (runs times (add_timer_moved [] address when interval (pos (suc n)))
        ≡ replicate (min (suc n) (due_runs when interval times)) address)
      × (runs times (add_timer_moved [] address when interval (negsuc 0))
          ≡ replicate (due_runs when interval times) address)
unfolding add_timer_moved insert set_insert entry
runs-add_timer_moved times address when interval n =
    (finite times when address when interval n, forever times when address when interval)

due_runs-reached : (times : List ℕ) (when : ℕ) → due_runs when 0 times ≡ reached when times
unfolding due_runs reached
due_runs-reached [] when = refl
due_runs-reached (now ∷ times) when =
    let ih = due_runs-reached times when in
    let same = ap (λ w. due_runs w 0 times) (add-zero when) in ground (arith, ih, same)

-- runAt is meant to call once, and does for a moved callback in an otherwise empty queue: at the first run at or after
-- its time, if there is one, and at no other. A copied one is called at every run at or after its
-- time, because that overload of addTimer drops the count.
pub runs-run_at :
    (times : List ℕ) (address when : ℕ)
    → (runs times (run_at_moved [] address when) ≡ replicate (min 1 (reached when times)) address)
      × (runs times (run_at_copied [] address when) ≡ replicate (reached when times) address)
unfolding run_at_moved run_at_copied add_timer_moved add_timer_copied insert set_insert entry
runs-run_at times address when =
    let same = due_runs-reached times when in
    (
      finite times when address when 0 0 ∙ ap (λ n. replicate (min 1 n) address) same,
      forever times when address when 0 ∙ ap (λ n. replicate n address) same,
    )
