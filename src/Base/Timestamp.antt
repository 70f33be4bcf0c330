-- ===== src/Base/Timestamp.antt =====
-- base/Timestamp.h and Timestamp.cpp: a time is its microseconds since the Epoch, a signed integer. Sums are those of
-- the integers: they stay inside 64 bits for any date.
pub mod Texts
mod Tests
use learning_tools.Prelude.Int.{ℤ, pos, negsuc, sub_ℕ, ◌+ℤ◌, ◌-ℤ◌, ltb_ℤ}
use learning_tools.Prelude.{
  ℕ, suc, ◌+◌, ◌-◌, ◌*◌, ◌/◌, ◌%◌, Bool, true, false, not, ◌&&◌, ◌==◌, if◌then◌else◌, List, [], ◌∷◌,
  ◌++◌, length, replicate, take,
}
use learning_tools.Net.Stream.Decimal.{digits, print_int}

-- The object has one field, its microseconds.
abbrev pub Timestamp : Type 0
Timestamp = ℤ

abbrev pub micro_seconds_per_second : ℕ
micro_seconds_per_second = 1000 * 1000

unfoldable pub add_time : Timestamp → ℤ → Timestamp
add_time t microseconds = t +ℤ microseconds

unfoldable pub subtract : Timestamp → ℤ → Timestamp
subtract t microseconds = t -ℤ microseconds

unfoldable pub valid : Timestamp → Bool
valid t = ltb_ℤ (pos 0) t

-- The comparison operators, defined by one another as in the header.
unfoldable pub lt : Timestamp → Timestamp → Bool
lt a b = ltb_ℤ a b

unfoldable pub gt : Timestamp → Timestamp → Bool
unfolding lt
gt a b = lt b a

unfoldable pub le : Timestamp → Timestamp → Bool
unfolding gt
le a b = not (gt a b)

unfoldable pub ge : Timestamp → Timestamp → Bool
unfolding lt
ge a b = not (lt a b)

unfoldable pub eq : Timestamp → Timestamp → Bool
eq (pos m) (pos n) = m == n
eq (pos m) (negsuc n) = false
eq (negsuc m) (pos n) = false
eq (negsuc m) (negsuc n) = m == n

unfoldable pub ne : Timestamp → Timestamp → Bool
unfolding eq
ne a b = not (eq a b)

-- Division of signed integers goes towards zero.
unfoldable pub seconds_since_epoch : Timestamp → ℤ
seconds_since_epoch (pos n) = pos (n / micro_seconds_per_second)
seconds_since_epoch (negsuc n) = sub_ℕ 0 (suc n / micro_seconds_per_second)

unfoldable pub microseconds_of : Timestamp → ℤ
microseconds_of (pos n) = pos (n % micro_seconds_per_second)
microseconds_of (negsuc n) = sub_ℕ 0 (suc n % micro_seconds_per_second)

-- `%06lld`: zeros in front, up to six characters with the sign.
unfoldable pub print_padded : ℤ → List ℕ
print_padded (pos n) = replicate (6 - length (digits n)) 48 ++ digits n
print_padded (negsuc n) = 45 ∷ replicate (5 - length (digits (suc n))) 48 ++ digits (suc n)

-- `snprintf(buf, sizeof(buf)-1, "%lld.%06lld", ...)` keeps 62 characters.
unfoldable pub to_string : Timestamp → List ℕ
unfolding seconds_since_epoch microseconds_of print_padded print_int
to_string t = take 62 (print_int (seconds_since_epoch t) ++ 46 ∷ print_padded (microseconds_of t))
