-- ===== src/Net/Stream/Decimal/Value.antt =====
-- The digits that `sprintf` makes of a number tell the number.
use native.Mathlib.Bridge.{le_prop}
use mathlib.Core.WellFounded.{Acc}
use mathlib.Core.Logic.{dif_pos, dif_neg}
use learning_tools.Prelude.Order.{lt_wf}
use learning_tools.Prelude.{
  ℕ, ◌+◌, ◌-◌, ◌*◌, ◌/◌, ◌%◌, ◌<◌, ◌≡◌, refl, sym, ap, ◌∙◌, arith, List, [], ◌∷◌, ◌++◌, dec_lt,
}
use learning_tools.Net.Stream.Decimal.{digits, digits_acc, digit_shrinks}

unfoldable pub value : ℕ → List ℕ → ℕ
value acc [] = acc
value acc (c ∷ cs) = value (acc * 10 + (c - 48)) cs

value-append :
    (acc : ℕ) (cs : List ℕ) (c : ℕ) → value acc (cs ++ c ∷ []) ≡ value acc cs * 10 + (c - 48)
unfolding value
value-append acc [] c = refl
value-append acc (d ∷ cs) c = value-append (acc * 10 + (d - 48)) cs c

value-digits_acc : (v : ℕ) (w : Acc ◌<◌ v) → value 0 (digits_acc v w) ≡ v
unfolding digits_acc value
value-digits_acc v (Acc.intro _ smaller) = elim (dec_lt 0 (v / 10)) [
  | yes more ↦
      let ih = value-digits_acc (v / 10) (smaller (v / 10) (digit_shrinks v more)) in
      let last =
        value-append 0 (digits_acc (v / 10) (smaller (v / 10) (digit_shrinks v more)))
          (48 + v % 10) in
      rw (dif_pos (dec_lt 0 (v / 10)) le_prop more) (omega (arith, ih, last))
  | no less ↦ rw (dif_neg (dec_lt 0 (v / 10)) less) (omega (arith, less))
]

pub value-digits : (v : ℕ) → value 0 (digits v) ≡ v
unfolding digits
value-digits v = value-digits_acc v (lt_wf.apply v)

pub digits_inj : (v w : ℕ) → digits v ≡ digits w → v ≡ w
unfolding digits
digits_inj v w e =
    sym (value-digits_acc v (lt_wf.apply v)) ∙ ap (value 0) e ∙ value-digits_acc w (lt_wf.apply w)
