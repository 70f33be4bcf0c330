-- ===== src/Base/AsyncLog/Dump/ReadBack.antt =====
-- base/AsyncLog.cpp: `outputBinary` prints every byte.
use mathlib.Core.List.{append_assoc}
use learning_tools.Prelude.{
  ℕ, zero, suc, ◌+◌, ◌%◌, ◌<◌, ◌≤◌, ◌≡◌, refl, sym, ap, ◌∙◌, Bool, true, false, not, ◌&&◌, ◌||◌,
  ◌==◌, ltb, if◌then◌else◌, arith, List, [], ◌∷◌, ◌++◌, length, length-take, length-drop, take,
  drop, take-append-drop, some, Option-cases, inl, inr,
}
use learning_tools.Base.AsyncLog.{Log, push_line}
use learning_tools.Base.AsyncLog.Dump.{
  row_head, byte_text, form_loop, form_log, dump_loop, output_binary,
}
use learning_tools.Base.AsyncLog.Dump.Bounds.{
  cap, cap_step, cap_bound, length-byte_text, form_log-fits, dump_loop-some,
}
use learning_tools.Base.AsyncLog.Dump.Rows.{
  heading, between, read_rows, all_bytes, place, read_rows-newline, length-row_head_pos,
  read_rows-byte_text,
}

all_bytes-append :
    (xs ys : List ℕ) → all_bytes (xs ++ ys) ≡ true → (all_bytes xs ≡ true) × (all_bytes ys ≡ true)
unfolding all_bytes
all_bytes-append [] ys h = (refl, h)
all_bytes-append (x ∷ xs) ys h =
    let rest = all_bytes-append xs ys (ground (arith, h)) in
    (ground (arith, rest, h), ground (arith, rest))

abbrev is_nil : List ℕ → Bool
is_nil [] = true
is_nil (c ∷ cs) = false

form_loop-reads :
    (bytes : List ℕ) (index lsize headlen len : ℕ) (t : List ℕ)
    → lsize + length bytes ≤ 512
    → len ≤ cap lsize
    → index + length bytes < 10000000000
    → all_bytes bytes ≡ true
    → ((headlen == 0) && (is_nil bytes || not (lsize % 32 == 0))) ≡ false
    → read_rows (place headlen) ((form_loop 1544 bytes index lsize headlen len).0 ++ 10 ∷ t)
      ≡ bytes ++ read_rows heading t
unfolding form_loop all_bytes
form_loop-reads [] index lsize headlen len t s c h a begins =
    let later : (headlen == 0) ≡ false = ground (arith, begins) in rw later (read_rows-newline t)
form_loop-reads (b ∷ bs) index lsize headlen len t s c h a begins =
    let starts = lsize % 32 == 0 in
    let index' = if starts then index + 1 else index in
    let headlen' = if starts then length (row_head index) else headlen in
    let text = byte_text index lsize headlen b in
    let rest = form_loop 1544 bs index' (lsize + 1) headlen' (len + length text) in
    let (small, _) = length-byte_text index lsize headlen b (omega (arith, h)) in
    let step = cap_step lsize in
    let end = cap_bound lsize (omega (arith, s)) in
    let room : ltb (len + 10) 1544 ≡ true = ground (arith, c, end) in
    let head = length-row_head_pos index in
    let later : (headlen' == 0) ≡ false = ground (arith, begins, head) in
    let ih =
      form_loop-reads bs index' (lsize + 1) headlen' (len + length text) t (omega (arith, s))
        (omega (arith, c, step, small)) (ground (arith, h)) (ground (arith, a))
        (ground (arith, later)) in
    let ih' : read_rows between (rest.0 ++ 10 ∷ t) ≡ bs ++ read_rows heading t =
      ap (λ (q : Bool). read_rows (if q then heading else between) (rest.0 ++ 10 ∷ t)) (sym later)
      ∙ ih in
    let first =
      read_rows-byte_text index lsize headlen b (rest.0 ++ 10 ∷ t) (ground (arith, a))
        (ground (arith, begins)) in
    rw room (
      ap (read_rows (place headlen)) (append_assoc text rest.0 (10 ∷ t))
      ∙ first
      ∙ ap (λ xs. b ∷ xs) ih')

form_log-text :
    (index size_buf : ℕ) (bytes : List ℕ) (r : List ℕ × ℕ)
    → form_log index size_buf bytes ≡ some r
    → r.0 ≡ (form_loop size_buf bytes index 0 0 0).0 ++ 10 ∷ []
unfolding form_log
form_log-text index size_buf bytes r e = ground (arith, e)

form_log-reads :
    (index : ℕ) (bytes : List ℕ) (r : List ℕ × ℕ) (t : List ℕ)
    → form_log index 1544 bytes ≡ some r
    → length bytes ≤ 512
    → index + length bytes < 10000000000
    → all_bytes bytes ≡ true
    → is_nil bytes ≡ false
    → read_rows heading (r.0 ++ t) ≡ bytes ++ read_rows heading t
form_log-reads index bytes r t e few h a full =
    let text = (form_loop 1544 bytes index 0 0 0).0 in
    ap (λ xs. read_rows heading (xs ++ t)) (form_log-text index 1544 bytes r e)
    ∙ ap (read_rows heading) (append_assoc text (10 ∷ []) t)
    ∙ form_loop-reads bytes index 0 0 0 t (omega (arith, few)) (omega arith) h a
        (ground (arith, full))

dump_loop-reads :
    (fuel index : ℕ) (bytes text : List ℕ)
    → dump_loop fuel index bytes ≡ some text
    → index + length bytes < 10000000000
    → all_bytes bytes ≡ true
    → read_rows heading text ≡ bytes
unfolding dump_loop read_rows
dump_loop-reads fuel index [] text e h a = let nothing : text ≡ [] = ground (arith, e) in rw nothing
dump_loop-reads zero index (b ∷ bs) text e h a = ground (arith, e)
dump_loop-reads (suc fuel) index (b ∷ bs) text e h a =
    let chunk = take 512 (b ∷ bs) in
    let others = drop 512 (b ∷ bs) in
    let front = length-take 512 (b ∷ bs) in
    let back = length-drop 512 (b ∷ bs) in
    let whole = take-append-drop 512 (b ∷ bs) in
    let (a', a'') = all_bytes-append chunk others (ap all_bytes whole ∙ a) in
    let (r, (made, (_, small))) =
      form_log-fits index chunk (omega (arith, front)) (omega (arith, front, h)) in
    elim (Option-cases (dump_loop fuel r.1 others)) [
      | inl failed ↦ ground (arith, e, made, failed)
      | inr (texts, more) ↦
          let same : text ≡ r.0 ++ texts = ground (arith, e, made, more) in
          let rest =
            dump_loop-reads fuel r.1 others texts more (omega (arith, small, front, back, h)) a'' in
          let here =
            form_log-reads index chunk r texts made (omega (arith, front)) (omega (arith, front, h))
              a' refl in
          ap (read_rows heading) same ∙ here ∙ ap (λ xs. chunk ++ xs) rest ∙ whole
    ]

-- `outputBinary` of less than 10^10 bytes comes to an end, no write is behind its array, and from the rows
-- that it puts into the list behind their head a reader that skips the head of each row and all
-- spaces, and takes two hexadecimal digits for each byte, gets exactly the bytes, in their order.
pub output_binary-read_rows :
    (head bytes : List ℕ) (l : Log)
    → length bytes < 10000000000
    → all_bytes bytes ≡ true
    → (text : List ℕ) × ((output_binary head bytes l ≡ some (push_line (head ++ text) l))
        × (read_rows heading text ≡ bytes))
unfolding output_binary
output_binary-read_rows head bytes l h a =
    let (text, (e, _)) = dump_loop-some (length bytes) 0 bytes (omega arith) (omega (arith, h)) in
    (
      text,
      (rw (output_binary, e), dump_loop-reads (length bytes) 0 bytes text e (omega (arith, h)) a),
    )
