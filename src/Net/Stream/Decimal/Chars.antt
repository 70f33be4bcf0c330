-- ===== src/Net/Stream/Decimal/Chars.antt =====
-- The characters that `sprintf` makes of a number.
use native.Mathlib.Bridge.{le_prop}
use mathlib.Core.WellFounded.{Acc}
use mathlib.Core.Logic.{dif_pos, dif_neg}
use learning_tools.Prelude.Order.{lt_wf}
use learning_tools.Prelude.Strings.{lacks, lacks-append}
use learning_tools.Prelude.{
  ℕ, ◌+◌, ◌/◌, ◌%◌, ◌<◌, ◌≡◌, true, false, arith, leb, ◌&&◌, [], ◌∷◌, dec_lt,
}
use learning_tools.Net.Stream.Decimal.{digits, digits_acc, digit_shrinks}

digits_acc-lacks :
    (b v : ℕ) (acc : Acc ◌<◌ v) → (leb 48 b && leb b 57) ≡ false → lacks b (digits_acc v acc) ≡ true
unfolding digits_acc
digits_acc-lacks b v (Acc.intro _ smaller) h = elim (dec_lt 0 (v / 10)) [
  | yes more ↦
      let front = digits_acc (v / 10) (smaller (v / 10) (digit_shrinks v more)) in
      let ih = digits_acc-lacks b (v / 10) (smaller (v / 10) (digit_shrinks v more)) h in
      let last : lacks b ((48 + v % 10) ∷ []) ≡ true = ground (arith, h) in
      rw (dif_pos (dec_lt 0 (v / 10)) le_prop more) (lacks-append b front _ ih last)
  | no less ↦ rw (dif_neg (dec_lt 0 (v / 10)) less) (ground (arith, h))
]

-- A number is printed with digits only.
pub digits-lacks : (b v : ℕ) → (leb 48 b && leb b 57) ≡ false → lacks b (digits v) ≡ true
unfolding digits
digits-lacks b v h = digits_acc-lacks b v (lt_wf.apply v) h
