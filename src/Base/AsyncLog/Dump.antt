-- ===== src/Base/AsyncLog/Dump.antt =====
-- base/AsyncLog.cpp: `outputBinary` and the rows of hexadecimal digits that `formLog` makes of 512 bytes.
-- An array of 1544 bytes that is full of zeros takes them; `none` is a write behind it.
pub mod Bounds
pub mod Rows
pub mod ReadBack
use learning_tools.Prelude.{
  ℕ, zero, suc, ◌+◌, ◌-◌, ◌*◌, ◌/◌, ◌%◌, ◌≡◌, Bool, true, false, not, ◌&&◌, ◌==◌, ltb, leb,
  if◌then◌else◌, List, [], ◌∷◌, ◌++◌, length, take, drop, replicate, Option, none, some,
}
use learning_tools.Net.Stream.Decimal.{digits}
use learning_tools.Base.AsyncLog.{Line, Log, push_line}

-- `sprintf(buf, "%06u", n)`.
unfoldable pub ullto4_str : ℕ → List ℕ
ullto4_str n = replicate (6 - length (digits n)) 48 ++ digits n

abbrev pub hex_digit : ℕ → ℕ
hex_digit n = if ltb n 10 then n + 48 else n + 87

-- The start of a row.
unfoldable pub row_head : ℕ → List ℕ
row_head index = ullto4_str index ++ 32 ∷ []

-- What a round of the loop adds for the byte `lsize`.
unfoldable pub byte_text : ℕ → ℕ → ℕ → ℕ → List ℕ
byte_text index lsize headlen b =
    let starts = lsize % 32 == 0 in
    let head = if starts then row_head index else [] in
    let headlen' = if starts then length head else headlen in
    (if starts && not (headlen == 0) then 10 ∷ [] else [])
    ++ head
    ++ (if lsize % 16 == 0 && not (headlen' == 0) then 32 ∷ [] else [])
    ++ hex_digit (b / 16 % 16) ∷ hex_digit (b % 16) ∷ []

-- The loop, from byte `lsize` on; `len` bytes are in the array. The text that it adds, and the index.
unfoldable pub form_loop : ℕ → List ℕ → ℕ → ℕ → ℕ → ℕ → List ℕ × ℕ
form_loop size_buf [] index lsize headlen len = ([], index)
form_loop size_buf (b ∷ bs) index lsize headlen len =
    let starts = lsize % 32 == 0 in
    let text = byte_text index lsize headlen b in
    let rest =
      form_loop size_buf bs (if starts then index + 1 else index) (lsize + 1)
        (if starts then length (row_head index) else headlen) (len + length text) in
    if ltb (len + 10) size_buf then (text ++ rest.0, rest.1) else ([], index)

unfoldable pub form_log : ℕ → ℕ → List ℕ → Option (List ℕ × ℕ)
unfolding form_loop
form_log index size_buf bytes =
    let (text, index') = form_loop size_buf bytes index 0 0 0 in
    if leb (length text + 2) size_buf then some (text ++ 10 ∷ [], index') else none

-- The loop of `outputBinary`, which `fuel` bounds.
unfoldable pub dump_loop : ℕ → ℕ → List ℕ → Option (List ℕ)
unfolding form_log
dump_loop fuel index [] = some []
dump_loop zero index (b ∷ bs) = none
dump_loop (suc fuel) index (b ∷ bs) = elim (form_log index 1544 (take 512 (b ∷ bs))) [
  | none ↦ none
  | some (text, index') ↦ elim (dump_loop fuel index' (drop 512 (b ∷ bs))) [
    | none ↦ none
    | some texts ↦ some (text ++ texts)
  ]
]

-- `head` is the text of the address and the size.
unfoldable pub output_binary : List ℕ → List ℕ → Log → Option Log
unfolding dump_loop push_line
output_binary head bytes l = elim (dump_loop (length bytes) 0 bytes) [
  | none ↦ none
  | some text ↦ some (push_line (head ++ text) l)
]
