-- ===== src/Net/Stream/SevenBit.antt =====
-- ProtocolStream.cpp, `write7BitEncoded` and `read7BitEncoded`: lengths in groups of seven bits, the
-- lowest first, with the top bit of each byte but the last set. A byte is a number below 256:
-- `c & 0x7F` is `c % 128`, and `c & 0x80` is set from 128 on.
pub mod RoundTrip
use mathlib.Core.WellFounded.{Acc}
use mathlib.Core.Logic.{dite}
use learning_tools.Prelude.Order.{lt_wf}
use learning_tools.Prelude.{
  ℕ, zero, suc, ◌+◌, ◌*◌, ◌/◌, ◌%◌, ◌^◌, ◌<◌, arith, List, [], ◌∷◌, dec_lt, Option, none, some, leb,
  ltb, if◌then◌else◌,
}

pub group_shrinks : (v : ℕ) → 0 < v / 128 → v / 128 < v
group_shrinks v h = omega arith

-- The bytes that the loop appends to `buf`.
groups : (v : ℕ) → Acc ◌<◌ v → List ℕ
groups v (Acc.intro _ smaller) =
    dite (dec_lt 0 (v / 128))
      (λ more. (v % 128 + 128) ∷ groups (v / 128) (smaller _ (group_shrinks v more)))
      (λ _. v % 128 ∷ [])

-- Both overloads run the same loop; they differ in the range of the argument.
unfoldable pub write_7bit_encoded : ℕ → List ℕ
unfolding groups lt_wf dec_lt
write_7bit_encoded v = groups v (lt_wf.apply v)

-- One run of the reading loop over a value `w` bits wide. It does not look at the length that it is
-- given: `none` is a read behind the array, or a shift by `w` bits or more.
read_groups : ℕ → List ℕ → ℕ → ℕ → Option ℕ
read_groups w [] shift value = none
read_groups w (c ∷ buf) shift value =
    let value' = (value + c % 128 * 2 ^ shift % 2 ^ w) % 2 ^ w in
    let rest = read_groups w buf (shift + 7) value' in
    if leb w shift then none else if ltb c 128 then some value' else rest

unfoldable pub read_7bit_encoded32 : List ℕ → Option ℕ
unfolding read_groups
read_7bit_encoded32 buf = read_groups 32 buf 0 0

unfoldable pub read_7bit_encoded64 : List ℕ → Option ℕ
unfolding read_groups
read_7bit_encoded64 buf = read_groups 64 buf 0 0
