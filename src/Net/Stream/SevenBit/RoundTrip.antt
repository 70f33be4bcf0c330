-- ===== src/Net/Stream/SevenBit/RoundTrip.antt =====
-- ProtocolStream.cpp: what `write7BitEncoded` wrote is read back.
use mathlib.Core.WellFounded.{Acc}
use native.Mathlib.Nat.{pow-le-pow_right, pow-suc, div-add-mod, mod-eq_of_lt}
use native.Mathlib.Bridge.{le_prop}
use native.Mathlib.Numerals.{towards_suc}
use mathlib.Core.Logic.{dif_pos, dif_neg}
use learning_tools.Prelude.Order.{lt_wf}
use learning_tools.Prelude.{
  ℕ, zero, suc, ◌+◌, ◌*◌, ◌/◌, ◌%◌, ◌^◌, ◌≤◌, ◌<◌, ◌≡◌, refl, ap, ◌∙◌, arith, List, [], ◌∷◌, ◌++◌,
  length, dec_lt, Option, none, some, Bool, true, false, leb, ltb, if◌then◌else◌, All,
}
use learning_tools.Net.Stream.SevenBit.{
  groups, group_shrinks, write_7bit_encoded, read_groups, read_7bit_encoded32, read_7bit_encoded64,
}

shift_seven : (s : ℕ) → 2 ^ (s + 7) ≡ 2 ^ s * 128
shift_seven s = simp towards_suc (omega arith)

-- A value with a bit above position `s` that fits `w` bits has `s` below `w`.
shift-lt : (w s v : ℕ) → 0 < v → v * 2 ^ s < 2 ^ w → s < w
shift-lt w s v h fits = elim (dec_lt s w) [
  | yes p ↦ p
  | no q ↦
      let grows : 2 ^ w ≤ 2 ^ s =
        pow-le-pow_right {n = 2} (omega arith) {i = w} {j = s} (omega arith) in
      absurd (grind arith)
]

-- The lowest group of `v` and the groups above it, both shifted to position `s`.
lowest_group : (v s : ℕ) → v * 2 ^ s ≡ v % 128 * 2 ^ s + v / 128 * 2 ^ (s + 7)
lowest_group v s =
    let pieces = ap (λ (t : ℕ). t * 2 ^ s) (div-add-mod v 128) in
    let moved = ap (λ (t : ℕ). v / 128 * t) (shift_seven s) in omega (arith, pieces, moved)

module _ (w s value : ℕ) (rest : List ℕ) (hs : s < w) where
  -- The group that a byte adds, where nothing is cut off.
  added :
      (g : ℕ) → value + g * 2 ^ s < 2 ^ w → (value + g * 2 ^ s % 2 ^ w) % 2 ^ w ≡ value + g * 2 ^ s
  added g fits =
      let group : g * 2 ^ s % 2 ^ w ≡ g * 2 ^ s =
        mod-eq_of_lt {n = g * 2 ^ s} {m = 2 ^ w} (omega arith) in
      rw group (mod-eq_of_lt {n = value + g * 2 ^ s} {m = 2 ^ w} fits)

  read_last :
      (g : ℕ)
      → g < 128
      → value + g * 2 ^ s < 2 ^ w
      → read_groups w (g ∷ rest) s value ≡ some (value + g * 2 ^ s)
  unfolding read_groups
  read_last g hg fits =
      let same : g % 128 ≡ g = omega arith in
      let on : leb w s ≡ false = ground arith in
      let ends : ltb g 128 ≡ true = ground arith in rw (on, ends, same, added g fits)

  read_more :
      (g : ℕ)
      → g < 128
      → value + g * 2 ^ s < 2 ^ w
      → read_groups w ((g + 128) ∷ rest) s value ≡ read_groups w rest (s + 7) (value + g * 2 ^ s)
  unfolding read_groups
  read_more g hg fits =
      let same : (g + 128) % 128 ≡ g = omega arith in
      let on : leb w s ≡ false = ground arith in
      let goes_on : ltb (g + 128) 128 ≡ false = ground arith in rw (on, goes_on, same, added g fits)

read_groups-groups :
    (w v s value : ℕ) (a : Acc ◌<◌ v) (rest : List ℕ)
    → s < w
    → value + v * 2 ^ s < 2 ^ w
    → read_groups w (groups v a ++ rest) s value ≡ some (value + v * 2 ^ s)
unfolding groups
read_groups-groups w v s value (Acc.intro _ smaller) rest hs fits = elim (dec_lt 0 (v / 128)) [
  | yes more ↦
      let split = lowest_group v s in
      let low = v % 128 in
      let high = v / 128 in
      let value' = value + low * 2 ^ s in
      let inside : high * 2 ^ (s + 7) < 2 ^ w = omega (arith, split) in
      rw (dif_pos (dec_lt 0 (v / 128)) le_prop more) (
        read_more w s value (groups high (smaller high (group_shrinks v more)) ++ rest) hs low
          (omega arith) (omega (arith, split))
        ∙ read_groups-groups w high (s + 7) value' (smaller high (group_shrinks v more)) rest
            (shift-lt w (s + 7) high more inside) (omega (arith, split))
        ∙ ap some (omega (arith, split)))
  | no last ↦
      let same : v % 128 ≡ v = omega arith in
      rw (dif_neg (dec_lt 0 (v / 128)) last, same)
        (read_last w s value rest hs v (omega arith) fits)
]

-- The groups of a value below 128 ^ (k + 1) are at most k + 1 bytes, and all but the last of them have the top
-- bit set.
abbrev pub IsCode : List ℕ → Type 0
IsCode [] = ⊥
IsCode (c ∷ []) = c < 128
IsCode (c ∷ d ∷ cs) = (128 ≤ c) × (c < 256) × IsCode (d ∷ cs)

cons-IsCode : (c : ℕ) (cs : List ℕ) → 128 ≤ c → c < 256 → IsCode cs → IsCode (c ∷ cs)
cons-IsCode c [] lo hi h = absurd h
cons-IsCode c (d ∷ cs) lo hi h = (lo, hi, h)

groups-IsCode :
    (k v : ℕ) (a : Acc ◌<◌ v)
    → v < 128 ^ suc k
    → IsCode (groups v a) × (length (groups v a) ≤ suc k)
unfolding groups
groups-IsCode zero v (Acc.intro _ smaller) h =
    let none_above : ¬ (0 < v / 128) = omega arith in
    rw (dif_neg (dec_lt 0 (v / 128)) none_above) (omega arith, omega arith)
groups-IsCode (suc k) v (Acc.intro _ smaller) h = elim (dec_lt 0 (v / 128)) [
  | yes more ↦
      let high : v / 128 < 128 ^ suc k = omega (arith, pow-suc 128 (suc k)) in
      let a = smaller (v / 128) (group_shrinks v more) in
      let (code, short) = groups-IsCode k (v / 128) a high in
      rw (dif_pos (dec_lt 0 (v / 128)) le_prop more)
        (cons-IsCode _ (groups (v / 128) a) (omega arith) (omega arith) code, omega arith)
  | no last ↦ rw (dif_neg (dec_lt 0 (v / 128)) last) (omega arith, omega arith)
]

-- A value below 2^32 that was written is read back by the 32-bit overload, whatever bytes stand behind it.
pub read_7bit_encoded32-write_7bit_encoded :
    (v : ℕ) (rest : List ℕ)
    → v < 2 ^ 32
    → read_7bit_encoded32 (write_7bit_encoded v ++ rest) ≡ some v
unfolding read_7bit_encoded32 write_7bit_encoded
read_7bit_encoded32-write_7bit_encoded v rest h =
    read_groups-groups 32 v 0 0 (lt_wf.apply v) rest (omega arith) (omega arith)
    ∙ ap some (omega arith)

-- A value below 2^64 that was written is read back by the 64-bit overload, whatever bytes stand behind it.
read_7bit_encoded64-write_7bit_encoded :
    (v : ℕ) (rest : List ℕ)
    → v < 2 ^ 64
    → read_7bit_encoded64 (write_7bit_encoded v ++ rest) ≡ some v
unfolding read_7bit_encoded64 write_7bit_encoded
read_7bit_encoded64-write_7bit_encoded v rest h =
    read_groups-groups 64 v 0 0 (lt_wf.apply v) rest (omega arith) (omega arith)
    ∙ ap some (omega arith)

-- What is written for a value is a code of at most five bytes for 32 bits, and ten for 64.
pub write_7bit_encoded-IsCode :
    (v : ℕ)
    → v < 2 ^ 64
    → IsCode (write_7bit_encoded v)
      × (length (write_7bit_encoded v) ≤ 10)
      × (v < 2 ^ 32 → length (write_7bit_encoded v) ≤ 5)
unfolding write_7bit_encoded
write_7bit_encoded-IsCode v h =
    let (code, short) = groups-IsCode 9 v (lt_wf.apply v) (omega arith) in
    (code, short, λ h. (groups-IsCode 4 v (lt_wf.apply v) (omega arith)).1)

-- Bytes that promise another byte.
abbrev pub IsOpen : List ℕ → Type 0
IsOpen = All (λ c. 128 ≤ c)

either_none : (b : Bool) → Path (Option ℕ) (if b then none else none) none
either_none true = refl
either_none false = refl

read_groups-open :
    (w : ℕ) (buf : List ℕ) (s value : ℕ) → IsOpen buf → read_groups w buf s value ≡ none
unfolding read_groups
read_groups-open w [] s value h = refl
read_groups-open w (c ∷ buf) s value (hc, hcs) =
    let goes_on : ltb c 128 ≡ false = ground arith in
    let rest = read_groups-open w buf (s + 7) ((value + c % 128 * 2 ^ s % 2 ^ w) % 2 ^ w) hcs in
    rw (goes_on, rest) (either_none (leb w s))

-- A head without a last byte is read past its end.
pub read_7bit_encoded32-open : (buf : List ℕ) → IsOpen buf → read_7bit_encoded32 buf ≡ none
unfolding read_7bit_encoded32
read_7bit_encoded32-open buf h = read_groups-open 32 buf 0 0 h
