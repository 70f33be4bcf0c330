-- ===== src/Net/Connector/Sockets.antt =====
-- net/Connector.cpp: what becomes of the sockets.
use learning_tools.Prelude.{
  ◌≢◌, ℕ, ◌+◌, ◌≡◌, refl, arith, Bool, true, false, not, ◌||◌, ◌==◌, if◌then◌else◌, List, [], ◌∷◌,
  ◌++◌, Option, none, some,
}
use learning_tools.Net.Connector.{
  State, disconnected, connecting, connected, is_connecting, Connector, Outcome, in_progress,
  temporary, fatal, Effect, opened, shut, handed, queued_reset, queued_stop, Run, retry,
  start_connecting, connect, start_in_loop, start, restart, stop, retry_channel, stop_in_loop,
  hand_over, handle_write, handle_error, reset_channel,
}

pub data Event : Type 0 where
  starts restarts : ℕ → Outcome → Event
  stops stops_in_loop errors resets : Event
  writes : Bool → Bool → Event

unfoldable pub step : Event → Connector → Option Run
step (starts fd o) c = some (start c fd o)
step (restarts fd o) c = some (restart c fd o)
step stops c = some (stop c)
step stops_in_loop c = stop_in_loop c
step errors c = handle_error c
step resets c = some (reset_channel c)
step (writes err self) c = handle_write c err self

-- How many of the effects concern the socket.
abbrev pub one : Bool → ℕ
one true = 1
one false = 0

unfoldable pub openings : ℕ → List Effect → ℕ
openings fd [] = 0
openings fd (opened x ∷ es) = one (x == fd) + openings fd es
openings fd (shut x ∷ es) = openings fd es
openings fd (handed x ∷ es) = openings fd es
openings fd (queued_reset ∷ es) = openings fd es
openings fd (queued_stop ∷ es) = openings fd es

-- Closed, or given to the owner of the connector.
unfoldable pub partings : ℕ → List Effect → ℕ
partings fd [] = 0
partings fd (opened x ∷ es) = partings fd es
partings fd (shut x ∷ es) = one (x == fd) + partings fd es
partings fd (handed x ∷ es) = one (x == fd) + partings fd es
partings fd (queued_reset ∷ es) = partings fd es
partings fd (queued_stop ∷ es) = partings fd es

-- Whether the connector is waiting for this socket.
unfoldable pub held : ℕ → Connector → ℕ
held fd c =
    if is_connecting c.state then (elim c.channel [ none ↦ 0 | some x ↦ one (x == fd) ]) else 0

-- A connector that waits has a channel to wait with.
abbrev pub has_channel : Option ℕ → Bool
has_channel none = false
has_channel (some _) = true

abbrev pub IsWhole : Connector → Type 0
IsWhole c = (not (is_connecting c.state) || has_channel c.channel) ≡ true

-- Neither a restart nor the reset of an old channel comes while the connector waits.
abbrev pub IsTimely : Event → Connector → Type 0
IsTimely (starts fd o) c = Unit {0}
IsTimely (restarts fd o) c = is_connecting c.state ≡ false
IsTimely stops c = Unit {0}
IsTimely stops_in_loop c = Unit {0}
IsTimely errors c = Unit {0}
IsTimely resets c = is_connecting c.state ≡ false
IsTimely (writes err self) c = Unit {0}

-- A run keeps account of the socket.
Accounts : ℕ → Connector → Option Run → Type 0
Accounts fd c none = ⊥
Accounts fd c (some (c', es)) =
    IsWhole c' × (held fd c + openings fd es ≡ partings fd es + held fd c')

start_in_loop-Accounts :
    (fd : ℕ) (c : Connector) (x : ℕ) (o : Outcome)
    → IsWhole c
    → Accounts fd c (some (start_in_loop c x o))
unfolding Accounts start_in_loop connect retry start_connecting openings partings held
start_in_loop-Accounts fd c x in_progress h = ground arith
start_in_loop-Accounts fd c x temporary h = ground arith
start_in_loop-Accounts fd c x fatal h = ground arith

-- A waiting connector with its channel, and one that does not wait.
module _ (fd : ℕ) (wants : Bool) (x : ℕ) where
  waiting : Connector
  waiting = record { wants = wants; state = connecting; channel = some x }

  errors-Accounts : Accounts fd waiting (handle_error waiting)
  unfolding Accounts handle_error retry_channel retry openings partings held waiting
  errors-Accounts = ground arith

  stops-Accounts : Accounts fd waiting (stop_in_loop waiting)
  unfolding Accounts stop_in_loop retry_channel retry openings partings held waiting
  stops-Accounts = ground arith

  writes-Accounts : (err self : Bool) → Accounts fd waiting (handle_write waiting err self)
  unfolding Accounts handle_write hand_over retry_channel retry openings partings held waiting
  writes-Accounts err self = ground arith

step-Accounts :
    (fd : ℕ) (e : Event) (wants : Bool) (s : State) (channel : Option ℕ)
    → let c : Connector = record { wants = wants; state = s; channel = channel } in
      IsWhole c → IsTimely e c → Accounts fd c (step e c)
unfolding Accounts step start restart stop stop_in_loop handle_error handle_write reset_channel
    openings partings held waiting
step-Accounts fd (starts x o) w s ch h t =
    start_in_loop-Accounts fd (record { wants = true; state = s; channel = ch }) x o h
step-Accounts fd (restarts x o) w disconnected ch h t =
    start_in_loop-Accounts fd (record { wants = true; state = disconnected; channel = ch }) x o h
step-Accounts fd (restarts x o) w connecting ch h t = absurd (ground (arith, t))
step-Accounts fd (restarts x o) w connected ch h t =
    start_in_loop-Accounts fd (record { wants = true; state = disconnected; channel = ch }) x o refl
step-Accounts fd stops w s ch h t = (h, omega arith)
step-Accounts fd stops_in_loop w disconnected ch h t = (h, refl)
step-Accounts fd stops_in_loop w connected ch h t = (h, refl)
step-Accounts fd stops_in_loop w connecting none h t = absurd (ground (arith, h))
step-Accounts fd stops_in_loop w connecting (some x) h t = stops-Accounts fd w x
step-Accounts fd errors w disconnected ch h t = (h, refl)
step-Accounts fd errors w connected ch h t = (h, refl)
step-Accounts fd errors w connecting none h t = absurd (ground (arith, h))
step-Accounts fd errors w connecting (some x) h t = errors-Accounts fd w x
step-Accounts fd resets w disconnected ch h t = (refl, refl)
step-Accounts fd resets w connected ch h t = (refl, refl)
step-Accounts fd resets w connecting ch h t = absurd (ground (arith, t))
step-Accounts fd (writes err self) w disconnected ch h t = (h, refl)
step-Accounts fd (writes err self) w connected ch h t = (h, refl)
step-Accounts fd (writes err self) w connecting none h t = absurd (ground (arith, h))
step-Accounts fd (writes err self) w connecting (some x) h t = writes-Accounts fd w x err self

-- One event after the other, until one goes through a null pointer.
abbrev pub behind : List Effect → Option Run → Option Run
behind effects none = none
behind effects (some (c, later)) = some (c, effects ++ later)

abbrev pub and_then : Option Run → (Connector → Option Run) → Option Run
and_then none rest = none
and_then (some (c, effects)) rest = behind effects (rest c)

unfoldable pub runs : List Event → Connector → Option Run
runs [] c = some (c, [])
runs (e ∷ es) c = and_then (step e c) (runs es)

unfoldable pub AreTimelyAfter : (Connector → Type 0) → Option Run → Type 0
AreTimelyAfter P none = Unit {0}
AreTimelyAfter P (some (c, _)) = P c

unfoldable pub AreTimely : List Event → Connector → Type 0
unfolding AreTimelyAfter
AreTimely [] c = Unit {0}
AreTimely (e ∷ es) c = IsTimely e c × AreTimelyAfter (AreTimely es) (step e c)

openings-append :
    (fd : ℕ) (xs ys : List Effect) → openings fd (xs ++ ys) ≡ openings fd xs + openings fd ys
unfolding openings
openings-append fd [] ys = omega arith
openings-append fd (opened x ∷ xs) ys = omega (arith, openings-append fd xs ys)
openings-append fd (shut x ∷ xs) ys = openings-append fd xs ys
openings-append fd (handed x ∷ xs) ys = openings-append fd xs ys
openings-append fd (queued_reset ∷ xs) ys = openings-append fd xs ys
openings-append fd (queued_stop ∷ xs) ys = openings-append fd xs ys

partings-append :
    (fd : ℕ) (xs ys : List Effect) → partings fd (xs ++ ys) ≡ partings fd xs + partings fd ys
unfolding partings
partings-append fd [] ys = omega arith
partings-append fd (opened x ∷ xs) ys = partings-append fd xs ys
partings-append fd (shut x ∷ xs) ys = omega (arith, partings-append fd xs ys)
partings-append fd (handed x ∷ xs) ys = omega (arith, partings-append fd xs ys)
partings-append fd (queued_reset ∷ xs) ys = partings-append fd xs ys
partings-append fd (queued_stop ∷ xs) ys = partings-append fd xs ys

behind-Accounts :
    (fd : ℕ) (c c' : Connector) (effects : List Effect) (r : Option Run)
    → held fd c + openings fd effects ≡ partings fd effects + held fd c'
    → Accounts fd c' r
    → Accounts fd c (behind effects r)
unfolding Accounts
behind-Accounts fd c c' effects none first a = absurd a
behind-Accounts fd c c' effects (some (c'', later)) first (whole, second) = (
  whole,
  omega (arith, first, second, openings-append fd effects later, partings-append fd effects later),
)

and_then-Accounts :
    (fd : ℕ) (c : Connector) (es : List Event) (r : Option Run)
    → ((c' : Connector) → IsWhole c' → AreTimely es c' → Accounts fd c' (runs es c'))
    → Accounts fd c r
    → AreTimelyAfter (AreTimely es) r
    → Accounts fd c (and_then r (runs es))
unfolding Accounts AreTimelyAfter
and_then-Accounts fd c es none later a t = absurd a
and_then-Accounts fd c es (some (c', effects)) later (whole, first) t =
    behind-Accounts fd c c' effects (runs es c') first (later c' whole t)

runs-Accounts :
    (fd : ℕ) (es : List Event) (c : Connector)
    → IsWhole c
    → AreTimely es c
    → Accounts fd c (runs es c)
unfolding runs AreTimely Accounts openings partings
runs-Accounts fd [] c h t = (h, omega arith)
runs-Accounts fd (e ∷ es) c h (t, ts) =
    and_then-Accounts fd c es (step e c) (runs-Accounts fd es)
      (step-Accounts fd e c.wants c.state c.channel h t) ts

found :
    (fd : ℕ) (c : Connector) (r : Option Run)
    → Accounts fd c r
    → (c' : Connector) × ((es : List Effect) × (r ≡ some (c', es))
        × (held fd c + openings fd es ≡ partings fd es + held fd c'))
unfolding Accounts
found fd c none a = absurd a
found fd c (some (c', es)) (_, balance) = (c', (es, refl, balance))

-- From a connector that has its channel where it waits, and as long as no restart and no reset of an
-- old channel comes while it waits: no event goes through a null pointer, and each socket is closed or
-- handed to the owner just as often as it was opened, but for the one that the connector waits for.
pub runs-balance :
    (fd : ℕ) (es : List Event) (c : Connector)
    → IsWhole c
    → AreTimely es c
    → (c' : Connector) × ((effects : List Effect) × (runs es c ≡ some (c', effects))
        × (held fd c + openings fd effects ≡ partings fd effects + held fd c'))
runs-balance fd es c h t = found fd c (runs es c) (runs-Accounts fd es c h t)

-- A restart while the connector waits for a socket opens another one and forgets the first: it stays
-- open, and the connector does not know it any more.
restart_leaks :
    (wants : Bool) (old new : ℕ)
    → old ≢ new
    → let c : Connector = record { wants = wants; state = connecting; channel = some old } in
      let (c', effects) = restart c new in_progress in
      (held old c ≡ 1) × (held old c' ≡ 0) × (partings old effects ≡ 0)
unfolding held partings restart start_in_loop connect start_connecting
restart_leaks wants old new h = ground arith
