-- ===== src/Net/EventLoopThreadPool/RoundRobin.antt =====
-- net/EventLoopThreadPool.cpp: whose turn it is.
use learning_tools.Prelude.{
  ℕ, zero, suc, ◌+◌, ◌<◌, ◌≡◌, refl, ap, sym, ◌∙◌, arith, true, false, leb, if◌then◌else◌, List, [],
  ◌∷◌, ◌++◌, length, length-append, get_elem?, Option, some,
}
use mathlib.Core.List.{append_assoc}
use learning_tools.Net.EventLoopThreadPool.{Pool, get_next_loop}

-- The pool after so many calls.
unfoldable pub after : ℕ → Pool → Pool
after zero p = p
after (suc k) p = after k (get_next_loop p).1

-- The answers to so many calls.
unfoldable pub answers : ℕ → Pool → List (Option ℕ)
answers zero p = []
answers (suc k) p = let (loop, p') = get_next_loop p in loop ∷ answers k p'

-- The loops from the given one on, each as an answer.
unfoldable pub turns : List ℕ → List (Option ℕ)
turns [] = []
turns (x ∷ xs) = some x ∷ turns xs

one_turn :
    (b : Option ℕ) (n next : ℕ) (loops : List ℕ)
    → 0 < length loops
    → get_next_loop
        (record { base_loop = b; started = true; num_threads = n; next = next; loops = loops })
      ≡ (
        get_elem? loops next,
        record {
          base_loop = b;
          started = true;
          num_threads = n;
          next = if leb (length loops) (next + 1) then 0 else next + 1;
          loops = loops;
        },
      )
unfolding get_next_loop
one_turn b n next [] h = absurd (omega arith)
one_turn b n next (x ∷ xs) h = refl

get_elem?-append :
    (front : List ℕ) (y : ℕ) (rest : List ℕ) → get_elem? (front ++ y ∷ rest) (length front) ≡ some y
get_elem?-append [] y rest = refl
get_elem?-append (x ∷ front) y rest = get_elem?-append front y rest

module _ (b : Option ℕ) (n : ℕ) (loops : List ℕ) where
  abbrev at_place : ℕ → Pool
  at_place next = record {
    base_loop = b;
    started = true;
    num_threads = n;
    next = next;
    loops = loops;
  }

  last_turn :
      (front : List ℕ) (y : ℕ)
      → loops ≡ front ++ y ∷ []
      → get_next_loop (at_place (length front)) ≡ (some y, at_place 0)
  last_turn front y e =
      let total : length loops ≡ length front + 1 =
        ap (λ l. length l) e ∙ length-append front (y ∷ []) ∙ omega arith in
      let last : leb (length loops) (length front + 1) ≡ true = ground (arith, total) in
      let here : get_elem? loops (length front) ≡ some y =
        ap (λ l. get_elem? l (length front)) e ∙ get_elem?-append front y [] in
      one_turn b n (length front) loops (omega (arith, total)) ∙ rw (last, here) refl

  next_turn :
      (front : List ℕ) (y z : ℕ) (rest : List ℕ)
      → loops ≡ front ++ y ∷ z ∷ rest
      → get_next_loop (at_place (length front)) ≡ (some y, at_place (length (front ++ y ∷ [])))
  next_turn front y z rest e =
      let total : length loops ≡ length front + (length rest + 2) =
        ap (λ l. length l) e ∙ length-append front (y ∷ z ∷ rest) ∙ omega arith in
      let more : leb (length loops) (length front + 1) ≡ false = ground (arith, total) in
      let here : get_elem? loops (length front) ≡ some y =
        ap (λ l. get_elem? l (length front)) e ∙ get_elem?-append front y (z ∷ rest) in
      let moved : length (front ++ y ∷ []) ≡ length front + 1 = length-append front (y ∷ []) in
      one_turn b n (length front) loops (omega (arith, total)) ∙ rw (more, here, moved) refl

  -- The rest of a turn: `front` has had its turn, and `y` comes next.
  rest_of_turn :
      (rest front : List ℕ) (y : ℕ)
      → loops ≡ front ++ y ∷ rest
      → (answers (suc (length rest)) (at_place (length front)) ≡ turns (y ∷ rest))
        × (after (suc (length rest)) (at_place (length front)) ≡ at_place 0)
  unfolding answers after turns
  rest_of_turn [] front y e =
      let turn = last_turn front y e in (ap (λ r. r.0 ∷ []) turn, ap (λ r. r.1) turn)
  rest_of_turn (z ∷ rest) front y e =
      let (others, end) =
        rest_of_turn rest (front ++ y ∷ []) z (e ∙ sym (append_assoc front (y ∷ []) (z ∷ rest))) in
      let turn = next_turn front y z rest e in
      (
        ap (λ r. r.0 ∷ answers (suc (length rest)) r.1) turn ∙ ap (λ t. some y ∷ t) others,
        ap (λ r. after (suc (length rest)) r.1) turn ∙ end,
      )

round :
    (b : Option ℕ) (n : ℕ) (loops : List ℕ)
    → 0 < length loops
    → (answers (length loops) (at_place b n loops 0) ≡ turns loops)
      × (after (length loops) (at_place b n loops 0) ≡ at_place b n loops 0)
round b n [] h = absurd (omega arith)
round b n (x ∷ xs) h = rest_of_turn b n (x ∷ xs) xs [] x refl

-- From the first loop on, as many calls of getNextLoop as there are loops give each loop once, in the
-- order of the vector, and leave the pool as it was.
pub get_next_loop-round :
    (p : Pool)
    → p.started ≡ true
    → p.next ≡ 0
    → 0 < length p.loops
    → (answers (length p.loops) p ≡ turns p.loops) × (after (length p.loops) p ≡ p)
get_next_loop-round p up start some_loop =
    rw (up, start) (round p.base_loop p.num_threads p.loops some_loop)
