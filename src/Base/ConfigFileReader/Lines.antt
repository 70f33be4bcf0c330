-- ===== src/Base/ConfigFileReader/Lines.antt =====
-- base/ConfigFileReader.cpp: what `fgets` makes of a file, and of one written line.
use learning_tools.Prelude.{
  ℕ, zero, suc, ◌<◌, ◌≡◌, refl, ap, true, arith, List, [], ◌∷◌, ◌++◌, length,
}
use learning_tools.Base.ConfigFileReader.{split}
use learning_tools.Base.ConfigFileReader.Strings.{lacks}

split-zero : (cs : List ℕ) → (split 0 cs).0 ≡ []
unfolding split
split-zero [] = refl
split-zero (c ∷ cs) = refl

split-rest :
    (room : ℕ) (xs rest : List ℕ)
    → lacks 10 xs ≡ true
    → length xs < room
    → split room (xs ++ 10 ∷ rest) ≡ (xs ++ 10 ∷ [], (split 0 rest).1)
unfolding split
split-rest zero xs rest h g = ground arith
split-rest (suc room) [] rest h g = ap (λ l. (10 ∷ l, (split 0 rest).1)) (split-zero rest)
split-rest (suc room) (x ∷ xs) rest h g =
    let ih = split-rest room xs rest in ground (arith, ih, h, g)

-- A line that is short enough is one buffer.
pub split-line :
    (xs rest : List ℕ)
    → lacks 10 xs ≡ true
    → length xs < 255
    → (split 0 (xs ++ 10 ∷ rest)).1 ≡ (xs ++ 10 ∷ []) ∷ (split 0 rest).1
unfolding split
split-line [] rest h g = ap (λ l. (10 ∷ l) ∷ (split 0 rest).1) (split-zero rest)
split-line (x ∷ xs) rest h g = let rest_eq = split-rest 254 xs rest in ground (arith, rest_eq, h, g)
