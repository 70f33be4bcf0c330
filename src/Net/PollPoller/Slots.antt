-- ===== src/Net/PollPoller/Slots.antt =====
-- net/PollPoller.cpp: whose entry stands at which place of the array, after each change of it.
use learning_tools.Prelude.{
  ℕ, zero, suc, ◌<◌, ◌≤◌, ◌≡◌, refl, ◌==◌, ltb, if◌then◌else◌, arith, List, [], ◌∷◌, ◌++◌, length,
  take, get_elem?, set, Option, none, some,
}
use learning_tools.Net.PollPoller.{PollFd, owner}

abbrev pub owner_at : List PollFd → ℕ → Option ℕ
owner_at [] i = none
owner_at (p ∷ ps) zero = some (owner p.fd)
owner_at (p ∷ ps) (suc i) = owner_at ps i

pub owner_at-append :
    (ps : List PollFd) (p : PollFd) (i : ℕ)
    → owner_at (ps ++ p ∷ []) i ≡ (if i == length ps then some (owner p.fd) else owner_at ps i)
owner_at-append [] p zero = refl
owner_at-append [] p (suc i) = ground arith
owner_at-append (q ∷ ps) p zero = ground arith
owner_at-append (q ∷ ps) p (suc i) = let ih = owner_at-append ps p i in ground (arith, ih)

pub owner_at-set :
    (ps : List PollFd) (p : PollFd) (j i : ℕ)
    → j < length ps
    → owner_at (set ps j p) i ≡ (if i == j then some (owner p.fd) else owner_at ps i)
owner_at-set [] p j i h = ground (arith, h)
owner_at-set (q ∷ ps) p zero zero h = refl
owner_at-set (q ∷ ps) p zero (suc i) h = ground arith
owner_at-set (q ∷ ps) p (suc j) zero h = ground arith
owner_at-set (q ∷ ps) p (suc j) (suc i) h = let ih = owner_at-set ps p j i in ground (arith, ih, h)

pub owner_at-take :
    (n : ℕ) (ps : List PollFd) (i : ℕ)
    → owner_at (take n ps) i ≡ (if ltb i n then owner_at ps i else none)
owner_at-take zero ps i = ground arith
owner_at-take (suc n) [] i = ground arith
owner_at-take (suc n) (p ∷ ps) zero = ground arith
owner_at-take (suc n) (p ∷ ps) (suc i) = let ih = owner_at-take n ps i in ground (arith, ih)

pub owner_at_behind : (ps : List PollFd) (i : ℕ) → length ps ≤ i → owner_at ps i ≡ none
owner_at_behind [] i h = refl
owner_at_behind (p ∷ ps) zero h = ground (arith, h)
owner_at_behind (p ∷ ps) (suc i) h = let ih = owner_at_behind ps i in ground (arith, ih, h)

pub owner_at-get_elem? :
    (ps : List PollFd) (i : ℕ)
    → owner_at ps i
      ≡ (elim (get_elem? ps i) as (λ o. Option ℕ) [ none ↦ none | some p ↦ some (owner p.fd) ])
owner_at-get_elem? [] i = refl
owner_at-get_elem? (p ∷ ps) zero = refl
owner_at-get_elem? (p ∷ ps) (suc i) = owner_at-get_elem? ps i

pub entry_at : (ps : List PollFd) (i : ℕ) → i < length ps → (p : PollFd) × (get_elem? ps i ≡ some p)
entry_at [] i h = ground (arith, h)
entry_at (p ∷ ps) zero h = (p, refl)
entry_at (p ∷ ps) (suc i) h = entry_at ps i (omega (arith, h))
