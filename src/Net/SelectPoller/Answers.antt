-- ===== src/Net/SelectPoller/Answers.antt =====
-- net/SelectPoller.cpp: poll, with what select(2) promises.
use mathlib.Core.Path.{subst}
use learning_tools.Prelude.{
  ℕ, zero, suc, ◌+◌, ◌≤◌, ◌≡◌, refl, sym, ◌∙◌, Bool, true, false, not, ◌&&◌, ◌||◌, ltb,
  if◌then◌else◌, arith, List, [], ◌∷◌, length, some, Bool-cases, inl, inr,
}
use learning_tools.Net.Channel.{Channel, has_bit, pollin, pollout}
use learning_tools.Net.SelectPoller.{Poller, find, is_some, fd_set, max_fd, is_set, Select, poll}
use learning_tools.Net.SelectPoller.Ready.{ready, bits, poll-ready}

-- The descriptors of a set that are ready, of those that select(2) looks at: all, or those below its first argument.
unfoldable pub kept : Bool → (ℕ → Bool) → ℕ → List ℕ → List ℕ
kept looks_at_all is_on nfds [] = []
kept looks_at_all is_on nfds (fd ∷ fds) =
    let rest = kept looks_at_all is_on nfds fds in
    if (looks_at_all || ltb fd nfds) && is_on fd then fd ∷ rest else rest

-- select(2), when it does not fail: it leaves in each set what is ready, and returns how many it left. On
-- Windows it ignores its first argument, elsewhere it looks at the descriptors below it.
pub record IsSelect (select : Select) (looks_at_all : Bool) (readable writable : ℕ → Bool)
    : Type 0 where
  pub leaves :
      (nfds num : ℕ) (rs ws rs' ws' : List ℕ)
      → select nfds rs ws ≡ some (num, rs', ws')
      → (rs' ≡ kept looks_at_all readable nfds rs)
        × ((ws' ≡ kept looks_at_all writable nfds ws) × (num ≡ length rs' + length ws'))

-- Each descriptor is in the map once.
unfoldable pub all_distinct : List (ℕ × ℕ) → Bool
unfolding find
all_distinct [] = true
all_distinct ((fd, a) ∷ cs) = not (is_some (find fd cs)) && all_distinct cs

-- The channels that ask for something that their descriptor is ready for, in the order of the map.
unfoldable pub wanted : (ℕ → Bool) → (ℕ → Bool) → (ℕ → Channel) → List (ℕ × ℕ) → List ℕ
wanted readable writable store [] = []
wanted readable writable store ((fd, a) ∷ cs) =
    let rest = wanted readable writable store cs in
    let events = (store a).events in
    if (has_bit events pollin && readable fd) || (has_bit events pollout && writable fd)
    then a ∷ rest
    else rest

all_less : ℕ → List (ℕ × ℕ) → Bool
all_less n [] = true
all_less n ((fd, a) ∷ cs) = ltb fd n && all_less n cs

max_fd-least : (m : ℕ) (cs : List (ℕ × ℕ)) → m ≤ max_fd m cs
unfolding max_fd
max_fd-least m [] = omega arith
max_fd-least m ((fd, a) ∷ cs) =
    let ih = max_fd-least (if ltb m fd then fd else m) cs in ground (arith, ih)

max_fd-all_less : (m : ℕ) (cs : List (ℕ × ℕ)) → all_less (max_fd m cs + 1) cs ≡ true
unfolding max_fd all_less
max_fd-all_less m [] = refl
max_fd-all_less m ((fd, a) ∷ cs) =
    let least = max_fd-least (if ltb m fd then fd else m) cs in
    let ih = max_fd-all_less (if ltb m fd then fd else m) cs in ground (arith, ih, least)

module _ (weight : ℕ) (is_on : ℕ → Bool) (store : ℕ → Channel) where
  is_picked : ℕ → ℕ → Bool
  is_picked fd a = has_bit (store a).events weight && is_on fd

  picked : List (ℕ × ℕ) → List ℕ
  picked [] = []
  picked ((fd, a) ∷ cs) = let rest = picked cs in if is_picked fd a then fd ∷ rest else rest

  kept-fd_set :
      (room nfds : ℕ) (all : Bool) (cs : List (ℕ × ℕ))
      → all_less nfds cs ≡ true
      → length cs ≤ room
      → kept all is_on nfds (fd_set room weight store cs) ≡ picked cs
  unfolding kept fd_set picked is_picked all_less
  kept-fd_set zero nfds all [] h few = refl
  kept-fd_set (suc room) nfds all [] h few = refl
  kept-fd_set zero nfds all ((fd, a) ∷ cs) h few = ground (arith, few)
  kept-fd_set (suc room) nfds all ((fd, a) ∷ cs) h few =
      let more = kept-fd_set room nfds all cs (ground (arith, h)) (omega (arith, few)) in
      let rest = kept-fd_set (suc room) nfds all cs (ground (arith, h)) (omega (arith, few)) in
      ground (arith, more, rest, h)

  -- A test that says of the descriptors of these channels whether they are picked.
  Agrees : (ℕ → Bool) → List (ℕ × ℕ) → Type 0
  Agrees r [] = Unit {0}
  Agrees r ((fd, a) ∷ cs) = (r fd ≡ is_picked fd a) × Agrees r cs

  picked-absent :
      (fd : ℕ) (cs : List (ℕ × ℕ)) → is_some (find fd cs) ≡ false → is_set (picked cs) fd ≡ false
  unfolding find picked is_set
  picked-absent fd [] h = refl
  picked-absent fd ((fd', a) ∷ cs) h = let ih = picked-absent fd cs in ground (arith, ih, h)

  Agrees-cons :
      (fd : ℕ) (fds : List ℕ) (cs : List (ℕ × ℕ))
      → is_some (find fd cs) ≡ false
      → Agrees (is_set fds) cs
      → Agrees (is_set (fd ∷ fds)) cs
  unfolding find Agrees is_set
  Agrees-cons fd fds [] h g = tt
  Agrees-cons fd fds ((fd', a) ∷ cs) h (g, gs) =
      (ground (arith, h, g), Agrees-cons fd fds cs (ground (arith, h)) gs)

  Agrees-head :
      (fd a : ℕ) (cs : List (ℕ × ℕ)) (fds : List ℕ)
      → picked ((fd, a) ∷ cs) ≡ fds
      → is_set fds fd ≡ is_picked fd a
      → Agrees (is_set fds) cs
      → Agrees (is_set (picked ((fd, a) ∷ cs))) ((fd, a) ∷ cs)
  unfolding Agrees
  Agrees-head fd a cs fds e h g = subst (λ xs. Agrees (is_set xs) ((fd, a) ∷ cs)) (sym e) (h, g)

  picked-Agrees : (cs : List (ℕ × ℕ)) → all_distinct cs ≡ true → Agrees (is_set (picked cs)) cs
  unfolding Agrees picked all_distinct is_set
  picked-Agrees [] h = tt
  picked-Agrees ((fd, a) ∷ cs) h =
      let fresh : is_some (find fd cs) ≡ false = ground (arith, h) in
      let absent = picked-absent fd cs fresh in
      let ih = picked-Agrees cs (ground (arith, h)) in
      let more = Agrees-cons fd (picked cs) cs fresh ih in
      elim (Bool-cases (is_picked fd a)) [
        | inl on ↦
            Agrees-head fd a cs (fd ∷ picked cs) (ground (arith, on)) (ground (arith, on)) more
        | inr off ↦ Agrees-head fd a cs (picked cs) (ground (arith, off)) (absent ∙ sym off) ih
      ]

module _ (readable writable : ℕ → Bool) (store : ℕ → Channel) (r w : ℕ → Bool) where
  ready-wanted :
      (cs : List (ℕ × ℕ))
      → Agrees pollin readable store r cs
      → Agrees pollout writable store w cs
      → ready r w cs ≡ wanted readable writable store cs
  unfolding Agrees wanted is_picked
  ready-wanted [] hr hw = refl
  ready-wanted ((fd, a) ∷ cs) (hr, hrs) (hw, hws) =
      let ih = ready-wanted cs hrs hws in ground (arith, ih, hr, hw)

  bits-picked :
      (cs : List (ℕ × ℕ))
      → Agrees pollin readable store r cs
      → Agrees pollout writable store w cs
      → bits r w cs
        ≡ length (picked pollin readable store cs) + length (picked pollout writable store cs)
  unfolding Agrees picked
  bits-picked [] hr hw = refl
  bits-picked ((fd, a) ∷ cs) (hr, hrs) (hw, hws) =
      let ih = bits-picked cs hrs hws in ground (arith, ih, hr, hw)

-- When select(2) does not fail, and does what it promises, and there are no more channels than FD_SETSIZE and no
-- descriptor twice: poll makes active exactly the channels that ask to read and whose descriptor can be
-- read, or ask to write and whose descriptor can be written, each once, in the order of the map. So the sets
-- and the highest descriptor that it passes leave none of them out, and neither does the loop that ends early.
pub poll-wanted :
    (fd_setsize : ℕ) (select : Select) (looks_at_all : Bool) (readable writable : ℕ → Bool)
    (s : Poller) (num : ℕ) (readfds writefds : List ℕ)
    → IsSelect select looks_at_all readable writable
    → all_distinct s.channels ≡ true
    → length s.channels ≤ fd_setsize
    → select
        (max_fd 0 s.channels + 1)
        (fd_set fd_setsize pollin s.store s.channels)
        (fd_set fd_setsize pollout s.store s.channels)
      ≡ some (num, readfds, writefds)
    → (poll fd_setsize select s).0 ≡ wanted readable writable s.store s.channels
poll-wanted fd_setsize select all readable writable s num readfds writefds law distinct few answer =
    let cs = s.channels in
    let nfds = max_fd 0 cs + 1 in
    let below = max_fd-all_less 0 cs in
    let (left_r, (left_w, counted)) =
      law.leaves nfds num (fd_set fd_setsize pollin s.store cs)
        (fd_set fd_setsize pollout s.store cs) readfds writefds answer in
    let rs = left_r ∙ kept-fd_set pollin readable s.store fd_setsize nfds all cs below few in
    let ws = left_w ∙ kept-fd_set pollout writable s.store fd_setsize nfds all cs below few in
    let reads : Agrees pollin readable s.store (is_set readfds) cs =
      rw rs (picked-Agrees pollin readable s.store cs distinct) in
    let writes : Agrees pollout writable s.store (is_set writefds) cs =
      rw ws (picked-Agrees pollout writable s.store cs distinct) in
    let sizes =
      bits-picked readable writable s.store (is_set readfds) (is_set writefds) cs reads writes in
    let sum : length readfds + length writefds
        ≡ length (picked pollin readable s.store cs) + length (picked pollout writable s.store cs) =
      rw (rs, ws) refl in
    poll-ready fd_setsize select s num readfds writefds answer (counted ∙ sum ∙ sym sizes)
    ∙ ready-wanted readable writable s.store (is_set readfds) (is_set writefds) cs reads writes
