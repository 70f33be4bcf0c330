-- ===== src/Base/AsyncLog/Dump/Rows.antt =====
-- base/AsyncLog.cpp: the rows of `outputBinary` can be read back.
use mathlib.Core.List.{append_assoc}
use learning_tools.Prelude.{
  ℕ, zero, suc, ◌+◌, ◌-◌, ◌*◌, ◌/◌, ◌%◌, ◌<◌, ◌≡◌, refl, ap, ◌∙◌, Bool, true, false, not, ◌&&◌,
  ◌==◌, ltb, if◌then◌else◌, arith, List, [], ◌∷◌, ◌++◌, length, length-append, replicate,
  Bool-cases, inl, inr,
}
use learning_tools.Prelude.Strings.{lacks, lacks-append}
use learning_tools.Net.Stream.Decimal.{digits}
use learning_tools.Net.Stream.Decimal.Chars.{digits-lacks}
use learning_tools.Base.AsyncLog.Dump.{ullto4_str, hex_digit, row_head, byte_text}

-- A reader of the rows: in the head of a row, which ends with a space; between bytes, where a newline ends
-- the row; and behind the upper digit of a byte.
pub data Place : Type 0 where
  heading between : Place
  behind : ℕ → Place

pub nibble : ℕ → ℕ
nibble c = if ltb c 58 then c - 48 else c - 87

unfoldable pub read_rows : Place → List ℕ → List ℕ
unfolding nibble
read_rows p [] = []
read_rows heading (c ∷ cs) =
    let row = read_rows between cs in
    let head = read_rows heading cs in if c == 32 then row else head
read_rows between (c ∷ cs) =
    let head = read_rows heading cs in
    let row = read_rows between cs in
    let low = read_rows (behind (nibble c)) cs in
    if c == 10 then head else if c == 32 then row else low
read_rows (behind n) (c ∷ cs) = (16 * n + nibble c) ∷ read_rows between cs

unfoldable pub all_bytes : List ℕ → Bool
all_bytes [] = true
all_bytes (b ∷ bs) = ltb b 256 && all_bytes bs

read_rows-head :
    (xs t : List ℕ) → lacks 32 xs ≡ true → read_rows heading (xs ++ 32 ∷ t) ≡ read_rows between t
unfolding read_rows
read_rows-head [] t h = refl
read_rows-head (x ∷ xs) t h =
    let ih = read_rows-head xs t (ground (arith, h)) in ground (arith, ih, h)

lacks-replicate : (n : ℕ) → lacks 32 (replicate n 48) ≡ true
lacks-replicate zero = refl
lacks-replicate (suc n) = lacks-replicate n

read_rows-row_head :
    (index : ℕ) (t : List ℕ) → read_rows heading (row_head index ++ t) ≡ read_rows between t
unfolding row_head ullto4_str
read_rows-row_head index t =
    let zeros = replicate (6 - length (digits index)) 48 in
    let free =
      lacks-append 32 zeros (digits index) (lacks-replicate (6 - length (digits index)))
        (digits-lacks 32 index refl) in
    ap (read_rows heading) (append_assoc (zeros ++ digits index) (32 ∷ []) t)
    ∙ read_rows-head (zeros ++ digits index) t free

nibble-hex_digit : (n : ℕ) → n < 16 → nibble (hex_digit n) ≡ n
unfolding nibble
nibble-hex_digit n h = ground (arith, h)

hex_digit-solid : (n : ℕ) → n < 16 → ((hex_digit n == 10) ≡ false) × ((hex_digit n == 32) ≡ false)
hex_digit-solid n h = (ground (arith, h), ground (arith, h))

read_rows-byte :
    (b : ℕ) (t : List ℕ)
    → b < 256
    → read_rows between (hex_digit (b / 16 % 16) ∷ hex_digit (b % 16) ∷ t) ≡ b ∷ read_rows between t
unfolding read_rows
read_rows-byte b t h =
    let (newline, space) = hex_digit-solid (b / 16 % 16) (omega arith) in
    let high = nibble-hex_digit (b / 16 % 16) (omega arith) in
    let low = nibble-hex_digit (b % 16) (omega arith) in
    let whole : 16 * (b / 16 % 16) + b % 16 ≡ b = omega (arith, h) in
    rw (newline, space)
      (ap (λ n. n ∷ read_rows between t)
        (ap (λ n. 16 * n + nibble (hex_digit (b % 16))) high
          ∙ ap (λ n. 16 * (b / 16 % 16) + n) low
          ∙ whole))

-- The place where a round of the loop begins.
abbrev pub place : ℕ → Place
place headlen = if headlen == 0 then heading else between

pub read_rows-newline : (t : List ℕ) → read_rows between (10 ∷ t) ≡ read_rows heading t
unfolding read_rows
read_rows-newline t = refl

read_rows-space : (t : List ℕ) → read_rows between (32 ∷ t) ≡ read_rows between t
unfolding read_rows
read_rows-space t = refl

pub length-row_head_pos : (index : ℕ) → (length (row_head index) == 0) ≡ false
unfolding row_head
length-row_head_pos index =
    let whole = length-append (ullto4_str index) (32 ∷ []) in ground (arith, whole)

-- The four kinds of rounds.
module _ (index lsize headlen b : ℕ) where
  pair : List ℕ
  pair = hex_digit (b / 16 % 16) ∷ hex_digit (b % 16) ∷ []

  text_first :
      (lsize % 32 == 0) ≡ true
      → (headlen == 0) ≡ true
      → byte_text index lsize headlen b ≡ row_head index ++ 32 ∷ [] ++ pair
  unfolding byte_text pair
  text_first starts first =
      let sixteen : (lsize % 16 == 0) ≡ true = ground (arith, starts) in
      rw (starts, first, sixteen, length-row_head_pos index)

  text_row :
      (lsize % 32 == 0) ≡ true
      → (headlen == 0) ≡ false
      → byte_text index lsize headlen b ≡ 10 ∷ (row_head index ++ 32 ∷ [] ++ pair)
  unfolding byte_text pair
  text_row starts later =
      let sixteen : (lsize % 16 == 0) ≡ true = ground (arith, starts) in
      rw (starts, later, sixteen, length-row_head_pos index)

  text_half :
      (lsize % 32 == 0) ≡ false
      → (headlen == 0) ≡ false
      → byte_text index lsize headlen b ≡ (if lsize % 16 == 0 then 32 ∷ pair else pair)
  unfolding byte_text pair
  text_half inside later = ground (arith, inside, later)

  read_rows-pair : (t : List ℕ) → b < 256 → read_rows between (pair ++ t) ≡ b ∷ read_rows between t
  unfolding pair
  read_rows-pair t h = read_rows-byte b t h

  read_rows-start :
      (t : List ℕ)
      → b < 256
      → read_rows heading ((row_head index ++ 32 ∷ [] ++ pair) ++ t) ≡ b ∷ read_rows between t
  read_rows-start t h =
      ap (read_rows heading) (
        append_assoc (row_head index ++ 32 ∷ []) pair t
        ∙ append_assoc (row_head index) (32 ∷ []) (pair ++ t))
      ∙ read_rows-row_head index (32 ∷ (pair ++ t))
      ∙ read_rows-space (pair ++ t)
      ∙ read_rows-pair t h

  pub read_rows-byte_text :
      (t : List ℕ)
      → b < 256
      → ((headlen == 0) && not (lsize % 32 == 0)) ≡ false
      → read_rows (place headlen) (byte_text index lsize headlen b ++ t) ≡ b ∷ read_rows between t
  read_rows-byte_text t h begins = elim (Bool-cases (lsize % 32 == 0)) [
    | inl starts ↦ elim (Bool-cases (headlen == 0)) [
      | inl first ↦ rw (text_first starts first, first) (read_rows-start t h)
      | inr later ↦
          rw (text_row starts later, later)
            (read_rows-newline ((row_head index ++ 32 ∷ [] ++ pair) ++ t) ∙ read_rows-start t h)
    ]
    | inr inside ↦
        let later : (headlen == 0) ≡ false = ground (arith, inside, begins) in
        elim (Bool-cases (lsize % 16 == 0)) [
          | inl half ↦
              rw (text_half inside later, later, half)
                (read_rows-space (pair ++ t) ∙ read_rows-pair t h)
          | inr other ↦ rw (text_half inside later, later, other) (read_rows-pair t h)
        ]
  ]
