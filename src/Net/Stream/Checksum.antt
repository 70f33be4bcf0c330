-- ===== src/Net/Stream/Checksum.antt =====
-- ProtocolStream.cpp, `checksum`: the one's complement sum of 16-bit words. The words are read in the
-- byte order of the host, lowest byte first.
use mathlib.Core.WellFounded.{Acc}
use mathlib.Core.Logic.{dite, dif_pos, dif_neg}
use native.Mathlib.Bridge.{le_prop}
use learning_tools.Prelude.Order.{lt_wf}
use learning_tools.Prelude.{
  ℕ, ◌+◌, ◌-◌, ◌*◌, ◌/◌, ◌%◌, ◌^◌, ◌≤◌, ◌<◌, ◌≡◌, ◌∙◌, arith, List, [], ◌∷◌, ◌++◌, length, dec_lt,
  All,
}

-- `while (size > 1)` and the odd byte at the end; `cksum` is 32 bits wide.
pub sum_words : ℕ → List ℕ → ℕ
sum_words cksum [] = cksum
sum_words cksum (b ∷ []) = (cksum + b) % 2 ^ 32
sum_words cksum (lo ∷ hi ∷ bytes) = sum_words ((cksum + (lo + 256 * hi)) % 2 ^ 32) bytes

fold_shrinks : (c : ℕ) → 0 < c / 65536 → c / 65536 + c % 65536 < c
fold_shrinks c h = omega arith

-- `while (cksum >> 16) cksum = (cksum >> 16) + (cksum & 0xffff);`
fold_acc : (c : ℕ) → Acc ◌<◌ c → ℕ
fold_acc c (Acc.intro _ smaller) =
    dite (dec_lt 0 (c / 65536))
      (λ high. fold_acc (c / 65536 + c % 65536) (smaller _ (fold_shrinks c high))) (λ _. c)

pub fold : ℕ → ℕ
unfolding fold_acc lt_wf dec_lt
fold c = fold_acc c (lt_wf.apply c)

-- `(unsigned short)(~cksum)`, of a sum that was folded to 16 bits.
pub checksum : List ℕ → ℕ
checksum bytes = (2 ^ 32 - 1 - fold (sum_words 0 bytes)) % 65536

-- Folding keeps the sum modulo 65535, and makes it fit 16 bits; only 0 folds to 0.
abbrev FoldsTo : ℕ → ℕ → Type 0
FoldsTo c r = (r < 65536) × ((k : ℕ) × (c ≡ r + 65535 * k)) × (0 < c → 0 < r)

fold_acc-FoldsTo : (c : ℕ) (w : Acc ◌<◌ c) → FoldsTo c (fold_acc c w)
unfolding fold_acc
fold_acc-FoldsTo c (Acc.intro _ smaller) = elim (dec_lt 0 (c / 65536)) [
  | yes high ↦
      let (fits, (k, e), positive) =
        fold_acc-FoldsTo (c / 65536 + c % 65536) (smaller _ (fold_shrinks c high)) in
      rw (dif_pos (dec_lt 0 (c / 65536)) le_prop high)
        (fits, (c / 65536 + k, omega arith), λ h. positive (omega arith))
  | no low ↦ rw (dif_neg (dec_lt 0 (c / 65536)) low) (omega arith, (0, omega arith), λ h. h)
]

fold-FoldsTo : (c : ℕ) → FoldsTo c (fold c)
unfolding fold
fold-FoldsTo c = fold_acc-FoldsTo c (lt_wf.apply c)

-- The sum of the words without a bound on its width.
pub total_words : List ℕ → ℕ
total_words [] = 0
total_words (b ∷ []) = b
total_words (lo ∷ hi ∷ bytes) = lo + 256 * hi + total_words bytes

sum_words-total_words :
    (c : ℕ) (bytes : List ℕ)
    → c + total_words bytes < 2 ^ 32
    → sum_words c bytes ≡ c + total_words bytes
unfolding sum_words total_words
sum_words-total_words c [] h = omega arith
sum_words-total_words c (b ∷ []) h = omega arith
sum_words-total_words c (lo ∷ hi ∷ bytes) h =
    let fits : (c + (lo + 256 * hi)) % 2 ^ 32 ≡ c + (lo + 256 * hi) = omega arith in
    rw fits (sum_words-total_words (c + (lo + 256 * hi)) bytes (omega arith) ∙ omega arith)

total_words_bound :
    (bytes : List ℕ) → All (λ b. b < 256) bytes → 2 * total_words bytes ≤ 65535 * length bytes
unfolding total_words
total_words_bound [] h = omega arith
total_words_bound (b ∷ []) h = omega arith
total_words_bound (lo ∷ hi ∷ bytes) (a, (b, h)) = omega (arith, total_words_bound bytes h)

-- Words of two bytes each.
abbrev pub IsEven : List ℕ → Type 0
IsEven [] = Unit {0}
IsEven (b ∷ []) = ⊥
IsEven (a ∷ b ∷ bytes) = IsEven bytes

total_words-append :
    (xs ys : List ℕ) → IsEven xs → total_words (xs ++ ys) ≡ total_words xs + total_words ys
unfolding total_words
total_words-append [] ys h = omega arith
total_words-append (x ∷ []) ys h = absurd h
total_words-append (x ∷ y ∷ xs) ys h = omega (arith, total_words-append xs ys h)

-- The receiver's test: over words followed by their own checksum, as its two bytes, the checksum is 0.
-- It holds for every packet of an even length up to 131070 bytes, whose sum cannot reach 32 bits; and
-- the checksum fits 16 bits.
pub checksum_verifies :
    (bytes : List ℕ)
    → IsEven bytes
    → All (λ b. b < 256) bytes
    → length bytes ≤ 131070
    → (checksum bytes < 2 ^ 16)
      × (checksum (bytes ++ (checksum bytes % 256 ∷ checksum bytes / 256 ∷ [])) ≡ 0)
unfolding checksum
checksum_verifies bytes even h short =
    let s = total_words bytes in
    let bound = total_words_bound bytes h in
    let sent : sum_words 0 bytes ≡ s = sum_words-total_words 0 bytes (omega arith) ∙ omega arith in
    let (r_fits, (k, e), _) = fold-FoldsTo s in
    let c = checksum bytes in
    let c_lem : c ≡ 65535 - fold s = rw sent (omega arith) in
    let tail : List ℕ = c % 256 ∷ c / 256 ∷ [] in
    let total : total_words (bytes ++ tail) ≡ s + c =
      total_words-append bytes tail even ∙ unfold total_words in omega arith in
    let received : sum_words 0 (bytes ++ tail) ≡ s + c =
      sum_words-total_words 0 (bytes ++ tail) (omega (arith, total, c_lem))
      ∙ omega (arith, total) in
    let (fits, (k', e'), positive) = fold-FoldsTo (s + c) in
    let nonzero = positive (omega (arith, c_lem)) in
    (omega (arith, c_lem), rw received (omega (arith, c_lem)))
