-- ===== src/Prelude/Strings.antt =====
-- The order of std::string, byte by byte, by which std::map keeps its keys.
use learning_tools.Prelude.{
  ℕ, ◌≡◌, refl, arith, Bool, true, false, ◌&&◌, ◌||◌, ◌==◌, ltb, not, if◌then◌else◌, List, [], ◌∷◌,
  ◌++◌,
}

unfoldable pub less : List ℕ → List ℕ → Bool
less xs [] = false
less [] (y ∷ ys) = true
less (x ∷ xs) (y ∷ ys) = ltb x y || (x == y && less xs ys)

pub less_irrefl : (xs : List ℕ) → less xs xs ≡ false
unfolding less
less_irrefl [] = refl
less_irrefl (x ∷ xs) = let ih = less_irrefl xs in ground (arith, ih)

pub less_asymm : (xs ys : List ℕ) → less xs ys ≡ true → less ys xs ≡ false
unfolding less
less_asymm [] [] h = refl
less_asymm [] (y ∷ ys) h = refl
less_asymm (x ∷ xs) [] h = ground (arith, h)
less_asymm (x ∷ xs) (y ∷ ys) h = let ih = less_asymm xs ys in ground (arith, ih, h)

pub less_tri : (xs ys : List ℕ) → less xs ys ≡ false → less ys xs ≡ false → xs ≡ ys
unfolding less
less_tri [] [] h g = refl
less_tri [] (y ∷ ys) h g = ground (arith, h)
less_tri (x ∷ xs) [] h g = ground (arith, g)
less_tri (x ∷ xs) (y ∷ ys) h g = let ih = less_tri xs ys in ground (arith, ih, h, g)

pub less_trans : (xs ys zs : List ℕ) → less xs ys ≡ true → less ys zs ≡ true → less xs zs ≡ true
unfolding less
less_trans [] [] zs h g = ground (arith, h)
less_trans [] (y ∷ ys) [] h g = ground (arith, g)
less_trans [] (y ∷ ys) (z ∷ zs) h g = refl
less_trans (x ∷ xs) [] zs h g = ground (arith, h)
less_trans (x ∷ xs) (y ∷ ys) [] h g = ground (arith, g)
less_trans (x ∷ xs) (y ∷ ys) (z ∷ zs) h g = let ih = less_trans xs ys zs in ground (arith, ih, h, g)

-- No byte of the string is `b`.
abbrev pub lacks : ℕ → List ℕ → Bool
lacks b [] = true
lacks b (c ∷ cs) = not (c == b) && lacks b cs

pub lacks-append :
    (b : ℕ) (xs ys : List ℕ) → lacks b xs ≡ true → lacks b ys ≡ true → lacks b (xs ++ ys) ≡ true
lacks-append b [] ys h g = g
lacks-append b (x ∷ xs) ys h g = let ih = lacks-append b xs ys in ground (arith, ih, h, g)

-- What is in front of the first `b`, and what is behind it.
pub front : ℕ → List ℕ → List ℕ
front b [] = []
front b (c ∷ cs) = if c == b then [] else c ∷ front b cs

pub back : ℕ → List ℕ → List ℕ
back b [] = []
back b (c ∷ cs) = if c == b then cs else back b cs

pub front-append : (b : ℕ) (xs ys : List ℕ) → lacks b xs ≡ true → front b (xs ++ b ∷ ys) ≡ xs
unfolding front
front-append b [] ys h = ground arith
front-append b (x ∷ xs) ys h = let ih = front-append b xs ys in ground (arith, ih, h)

pub back-append : (b : ℕ) (xs ys : List ℕ) → lacks b xs ≡ true → back b (xs ++ b ∷ ys) ≡ ys
unfolding back
back-append b [] ys h = ground arith
back-append b (x ∷ xs) ys h = let ih = back-append b xs ys in ground (arith, ih, h)
