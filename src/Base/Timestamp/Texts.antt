-- ===== src/Base/Timestamp/Texts.antt =====
-- base/Timestamp.cpp: the text of a time tells the time.
use learning_tools.Prelude.Int.{ℤ, pos}
use learning_tools.Prelude.{
  ℕ, zero, suc, ◌+◌, ◌-◌, ◌/◌, ◌%◌, ◌<◌, ◌≡◌, refl, sym, ap, ◌∙◌, if◌then◌else◌, arith, List, ◌∷◌,
  ◌++◌, length, length-append, length-replicate, replicate,
}
use learning_tools.Prelude.Slices.{take_all}
use learning_tools.Prelude.Strings.{front, back, front-append, back-append}
use learning_tools.Net.Stream.Decimal.{digits, print_int}
use learning_tools.Net.Stream.Decimal.Length.{length-digits_int64, length-digits_micro}
use learning_tools.Net.Stream.Decimal.Value.{value, value-digits, digits_inj}
use learning_tools.Net.Stream.Decimal.Chars.{digits-lacks}
use learning_tools.Base.Timestamp.{
  seconds_since_epoch, microseconds_of, print_padded, to_string, lt, gt, eq,
}

value-zeros : (k : ℕ) (cs : List ℕ) → value 0 (replicate k 48 ++ cs) ≡ value 0 cs
unfolding value
value-zeros zero cs = refl
value-zeros (suc k) cs = value-zeros k cs

micros : ℕ → List ℕ
micros n = replicate (6 - length (digits (n % 1000000))) 48 ++ digits (n % 1000000)

value-micros : (n : ℕ) → value 0 (micros n) ≡ n % 1000000
unfolding micros
value-micros n =
    value-zeros (6 - length (digits (n % 1000000))) (digits (n % 1000000))
    ∙ value-digits (n % 1000000)

-- Nothing is cut.
to_string_whole :
    (n : ℕ) → n < 9223372036854775808 → to_string (pos n) ≡ digits (n / 1000000) ++ 46 ∷ micros n
unfolding to_string seconds_since_epoch microseconds_of print_padded print_int micros
to_string_whole n h =
    let rest = n % 1000000 in
    let zeros : List ℕ = replicate (6 - length (digits rest)) 48 in
    let few = length-digits_int64 (n / 1000000) (omega (arith, h)) in
    let six = length-digits_micro rest (omega arith) in
    let filled = length-replicate {A = ℕ} (6 - length (digits rest)) 48 in
    let both = length-append zeros (digits rest) in
    let all = length-append (digits (n / 1000000)) (46 ∷ zeros ++ digits rest) in
    take_all 62 _ (omega (arith, few, six, filled, both, all))

-- Two times from the Epoch on, inside 64 bits, have the same text only if they are the same.
pub to_string-inj :
    (m n : ℕ)
    → m < 9223372036854775808
    → n < 9223372036854775808
    → to_string (pos m) ≡ to_string (pos n)
    → m ≡ n
to_string-inj m n h k e =
    let one = sym (to_string_whole m h) ∙ e ∙ to_string_whole n k in
    let mine = digits-lacks 46 (m / 1000000) refl in
    let other = digits-lacks 46 (n / 1000000) refl in
    let seconds =
      sym (front-append 46 (digits (m / 1000000)) (micros m) mine)
      ∙ ap (front 46) one
      ∙ front-append 46 (digits (n / 1000000)) (micros n) other in
    let rests =
      sym (back-append 46 (digits (m / 1000000)) (micros m) mine)
      ∙ ap (back 46) one
      ∙ back-append 46 (digits (n / 1000000)) (micros n) other in
    let high = digits_inj (m / 1000000) (n / 1000000) seconds in
    let low = sym (value-micros m) ∙ ap (value 0) rests ∙ value-micros n in omega (arith, high, low)

-- Exactly one of `<`, `==` and `>` holds of two times.
pub trichotomy :
    (a b : ℤ)
    → (if lt a b then 1 else 0) + (if eq a b then 1 else 0) + (if gt a b then 1 else 0) ≡ 1
unfolding lt gt eq
trichotomy a b = ground arith
