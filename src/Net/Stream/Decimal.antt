-- ===== src/Net/Stream/Decimal.antt =====
-- The two calls of the C library by which 64-bit integers travel as text: `sprintf("%ld")` and `atoll`.
pub mod Length
pub mod Value
pub mod Chars
use mathlib.Core.Option
use mathlib.Core.WellFounded.{Acc}
use mathlib.Core.Logic.{dite}
use learning_tools.Prelude.Order.{lt_wf}
use learning_tools.Prelude.Int.{ℤ, pos, negsuc, sub_ℕ}
use learning_tools.Prelude.{
  ℕ, suc, ◌+◌, ◌-◌, ◌*◌, ◌/◌, ◌%◌, ◌<◌, arith, List, [], ◌∷◌, ◌++◌, dec_lt, Option, none, some, leb,
  ◌==◌, ◌&&◌, ◌||◌, if◌then◌else◌, Bool,
}

pub digit_shrinks : (v : ℕ) → 0 < v / 10 → v / 10 < v
digit_shrinks v h = omega arith

pub digits_acc : (v : ℕ) → Acc ◌<◌ v → List ℕ
digits_acc v (Acc.intro _ smaller) =
    dite (dec_lt 0 (v / 10))
      (λ more. digits_acc (v / 10) (smaller _ (digit_shrinks v more)) ++ ((b'0' + v % 10) ∷ []))
      (λ _. (b'0' + v % 10) ∷ [])

unfoldable pub digits : ℕ → List ℕ
unfolding digits_acc lt_wf dec_lt
digits v = digits_acc v (lt_wf.apply v)

-- `sprintf(buf, "%ld", value)`, without the terminator.
unfoldable pub print_int : ℤ → List ℕ
print_int (pos n) = digits n
print_int (negsuc n) = b'-' ∷ digits (suc n)

unfoldable pub is_digit : ℕ → Bool
is_digit c = leb b'0' c && leb c b'9'

-- The digits from the front of a C string; `none` is a read behind the array, which holds no
-- terminator then.
unfoldable pub read_digits : ℕ → List ℕ → Option ℕ
unfolding is_digit
read_digits acc [] = none
read_digits acc (c ∷ cs) =
    let rest = read_digits (acc * 10 + (c - b'0')) cs in if is_digit c then rest else some acc

unfoldable pub is_space : ℕ → Bool
is_space c = c == 32 || (leb 9 c && leb c 13)

-- `atoll`: blanks, a sign, digits. Its behaviour at a value outside 64 bits is undefined and not
-- modelled.
unfoldable pub atoll : List ℕ → Option ℤ
unfolding is_space read_digits
atoll [] = none
atoll (c ∷ cs) =
    let rest = atoll cs in
    if is_space c
    then rest
    else if c == b'-'
    then Option.map (sub_ℕ 0) (read_digits 0 cs)
    else if c == b'+'
    then Option.map pos (read_digits 0 cs)
    else Option.map pos (read_digits 0 (c ∷ cs))
