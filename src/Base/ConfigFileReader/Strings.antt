-- ===== src/Base/ConfigFileReader/Strings.antt =====
-- base/ConfigFileReader.cpp: strings without some byte, and the calls that look for one.
use learning_tools.Prelude.{ℕ, ◌≡◌, refl, true, arith, List, [], ◌∷◌, ◌++◌, some}
pub use learning_tools.Prelude.Strings.{lacks, lacks-append}
use learning_tools.Base.ConfigFileReader.{until, behind, remove_newline}

pub until-absent : (b : ℕ) (xs : List ℕ) → lacks b xs ≡ true → until b xs ≡ xs
unfolding until
until-absent b [] h = refl
until-absent b (x ∷ xs) h = let ih = until-absent b xs in ground (arith, ih, h)

pub until-append : (b : ℕ) (xs ys : List ℕ) → lacks b xs ≡ true → until b (xs ++ b ∷ ys) ≡ xs
unfolding until
until-append b [] ys h = ground arith
until-append b (x ∷ xs) ys h = let ih = until-append b xs ys in ground (arith, ih, h)

pub behind-append : (b : ℕ) (xs ys : List ℕ) → lacks b xs ≡ true → behind b (xs ++ b ∷ ys) ≡ some ys
unfolding behind
behind-append b [] ys h = ground arith
behind-append b (x ∷ xs) ys h = let ih = behind-append b xs ys in ground (arith, ih, h)

pub remove_newline-append : (xs : List ℕ) → remove_newline (xs ++ 10 ∷ []) ≡ some xs
unfolding remove_newline
remove_newline-append [] = refl
remove_newline-append (x ∷ []) = refl
remove_newline-append (x ∷ y ∷ xs) = rw (remove_newline-append (y ∷ xs))

pub until-lacks : (b : ℕ) (xs : List ℕ) → lacks b (until b xs) ≡ true
unfolding until
until-lacks b [] = refl
until-lacks b (x ∷ xs) = let ih = until-lacks b xs in ground (arith, ih)
