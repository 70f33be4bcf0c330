-- ===== src/Net/Stream/Decimal/Length.antt =====
-- The number of digits that `sprintf` makes of a number.
use native.Mathlib.Bridge.{le_prop}
use mathlib.Core.WellFounded.{Acc}
use mathlib.Core.Logic.{dif_pos, dif_neg}
use learning_tools.Prelude.Order.{lt_wf}
use learning_tools.Prelude.{
  ℕ, zero, suc, ◌+◌, ◌*◌, ◌/◌, ◌%◌, ◌<◌, ◌≤◌, arith, [], ◌∷◌, length, length-append, dec_lt,
}
use learning_tools.Net.Stream.Decimal.{digits, digits_acc, digit_shrinks}

abbrev pow10 : ℕ → ℕ
pow10 zero = 1
pow10 (suc k) = 10 * pow10 k

length-digits_acc :
    (k v : ℕ) (acc : Acc ◌<◌ v) → v < pow10 (suc k) → length (digits_acc v acc) ≤ suc k
unfolding digits_acc
length-digits_acc zero v (Acc.intro _ smaller) h =
    rw (dif_neg (dec_lt 0 (v / 10)) (λ more. omega (arith, h, more))) (omega arith)
length-digits_acc (suc k) v (Acc.intro _ smaller) h = elim (dec_lt 0 (v / 10)) [
  | yes more ↦
      let shorter =
        length-digits_acc k (v / 10) (smaller (v / 10) (digit_shrinks v more)) (omega (arith, h)) in
      let last =
        length-append (digits_acc (v / 10) (smaller (v / 10) (digit_shrinks v more)))
          ((48 + v % 10) ∷ []) in
      rw (dif_pos (dec_lt 0 (v / 10)) le_prop more) (omega (arith, shorter, last))
  | no less ↦ rw (dif_neg (dec_lt 0 (v / 10)) less) (omega arith)
]

pub length-digits_small : (v : ℕ) → v < 100000000 → length (digits v) ≤ 8
unfolding digits
length-digits_small v h = length-digits_acc 7 v (lt_wf.apply v) h

pub length-digits : (v : ℕ) → v < 10000000000 → length (digits v) ≤ 10
unfolding digits
length-digits v h = length-digits_acc 9 v (lt_wf.apply v) h

pub length-digits_port : (v : ℕ) → v < 65536 → length (digits v) ≤ 5
unfolding digits
length-digits_port v h = length-digits_acc 4 v (lt_wf.apply v) (omega (arith, h))

pub length-digits_byte : (v : ℕ) → v < 256 → length (digits v) ≤ 3
unfolding digits
length-digits_byte v h = length-digits_acc 2 v (lt_wf.apply v) (omega (arith, h))

pub length-digits_int64 : (v : ℕ) → v < 10000000000000000000 → length (digits v) ≤ 19
unfolding digits
length-digits_int64 v h = length-digits_acc 18 v (lt_wf.apply v) h

pub length-digits_micro : (v : ℕ) → v < 1000000 → length (digits v) ≤ 6
unfolding digits
length-digits_micro v h = length-digits_acc 5 v (lt_wf.apply v) h
