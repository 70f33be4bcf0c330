-- ===== src/Net/Buffer/Search/Laws.antt =====
-- Buffer.h: a search finds the first occurrence, and nothing else.
use learning_tools.Prelude.{
  ℕ, zero, suc, ◌+◌, ◌-◌, ◌≤◌, ◌<◌, ◌≡◌, ◌≢◌, ◌↔◌, refl, ap, ◌∙◌, arith, List, [], ◌∷◌, ◌++◌,
  length, length-append, take, drop, All, Option, none, some, true, false, ltb, ◌==◌, add_size,
  sub_size, inl, inr, Bool-cases,
}
use mathlib.Core.List.{append_assoc}
use learning_tools.Prelude.Slices.{drop-append, length-slice}
use learning_tools.Net.Buffer.{Buffer, retrieve_until}
use learning_tools.Net.Buffer.Invariant.{IsValid, readable_lem}
use learning_tools.Net.Buffer.Contents.{contents, length-contents, retrieve-contents}
use learning_tools.Net.Buffer.Search.{
  starts_with, search_range, memchr, range_from, crlf, null_at_end, find_string, find_crlf_from,
  find_eol,
}

-- `pat` stands at offset `i` of `xs`.
abbrev pub Occurs : List ℕ → List ℕ → ℕ → Type 0
Occurs pat xs i = take (length pat) (drop i xs) ≡ pat

starts_with_iff : (pat xs : List ℕ) → (starts_with pat xs ≡ true) ↔ (take (length pat) xs ≡ pat)
unfolding starts_with
starts_with_iff [] xs = (λ _. refl, λ _. refl)
starts_with_iff (p ∷ ps) [] = (λ h. cc, λ h. cc)
starts_with_iff (p ∷ ps) (x ∷ xs) =
    let (there, back) = starts_with_iff ps xs in
    (λ h. ground (arith, there), λ h. ground (arith, back))

-- The offset that `std::search` gives: nothing stands before it, and if it lies inside the range the
-- pattern stands there.
pub search_range_lem :
    (pat xs : List ℕ)
    → (search_range pat xs ≤ length xs)
      × ((j : ℕ) → j < search_range pat xs → ¬ Occurs pat xs j)
      × (search_range pat xs < length xs → Occurs pat xs (search_range pat xs))
unfolding search_range
search_range_lem pat [] = (omega arith, λ j h. absurd (omega arith), λ h. absurd (omega arith))
search_range_lem pat (x ∷ xs) = elim (Bool-cases (starts_with pat (x ∷ xs))) [
  | inl hit ↦
      rw hit (omega arith, (λ j h. absurd (omega arith)), λ h. (starts_with_iff pat (x ∷ xs)).0 hit)
  | inr miss ↦
      let (inside, before, at) = search_range_lem pat xs in
      rw miss (
        omega arith,
        later (λ e. cc (miss, (starts_with_iff pat (x ∷ xs)).1 e)) before,
        λ h. at (omega arith),
      )
]
  where
    later :
        {k : ℕ}
        → ¬ Occurs pat (x ∷ xs) 0
        → ((j : ℕ) → j < k → ¬ Occurs pat xs j)
        → (j : ℕ) → j < suc k
        → ¬ Occurs pat (x ∷ xs) j
    later none_here before zero h = none_here
    later none_here before (suc j) h = before j (omega arith)

-- The first place at or behind `start` where `pat` stands, if it stands anywhere before the write
-- index.
abbrev pub FirstFrom : Buffer → List ℕ → ℕ → Option ℕ → Type 0
FirstFrom b pat start none =
    (j : ℕ) → j < b.writer_index - start → ¬ Occurs pat (range_from b start) j
FirstFrom b pat start (some p) =
    (start ≤ p)
    × (p < b.writer_index)
    × Occurs pat (range_from b start) (p - start)
    × ((j : ℕ) → j < p - start → ¬ Occurs pat (range_from b start) j)

length-range_from :
    {b : Buffer} (v : IsValid b) (start : ℕ)
    → start ≤ b.writer_index
    → length (range_from b start) ≡ b.writer_index - start
length-range_from {b} v start h =
    length-slice start (sub_size b.writer_index start) b.storage (omega arith) ∙ omega arith

search_FirstFrom :
    {b : Buffer} (v : IsValid b) (pat : List ℕ) (start : ℕ)
    → start ≤ b.writer_index
    → FirstFrom b pat start (null_at_end b (add_size start (search_range pat (range_from b start))))
unfolding null_at_end
search_FirstFrom {b} v pat start h =
    let (inside, before, at) = search_range_lem pat (range_from b start) in
    let len = length-range_from v start h in
    let i = search_range pat (range_from b start) in
    let no_wrap : add_size start i ≡ start + i = omega arith in
    let offset : start + i - start ≡ i = omega arith in
    elim (Bool-cases (start + i == b.writer_index)) [
      | inl end ↦ rw (no_wrap, end) (λ j below. before j (ground arith))
      | inr inner ↦
          rw (no_wrap, inner, offset)
            (omega arith, ground (arith, inside, len), at (ground (arith, inside, len)), before)
    ]

-- `findString` gives the first place among the readable bytes where the target stands, and `nullptr`
-- if there is none.
pub find_string-FirstFrom :
    {b : Buffer} (target : List ℕ)
    → IsValid b
    → FirstFrom b target b.reader_index (find_string b target)
unfolding find_string
find_string-FirstFrom {b} target v = search_FirstFrom v target b.reader_index v.ordered

-- `findCRLF(start)` gives the first "\r\n" at or behind `start`, for a `start` among the readable bytes or
-- at their end; for any other it gives `nullptr`.
pub find_crlf_from-FirstFrom :
    {b : Buffer} (start : ℕ)
    → IsValid b
    → ((b.reader_index ≤ start
          → start ≤ b.writer_index
          → FirstFrom b crlf start (find_crlf_from b start))
        × (start < b.reader_index → find_crlf_from b start ≡ none)
        × (b.writer_index < start → find_crlf_from b start ≡ none))
unfolding find_crlf_from
find_crlf_from-FirstFrom {b} start v = (
  (λ lo hi.
      let low : ltb start b.reader_index ≡ false = ground arith in
      let high : ltb b.writer_index start ≡ false = ground arith in
      rw (low, high) (search_FirstFrom v crlf start hi)),
  (λ low. ground arith),
  λ high. ground arith,
)

memchr-append :
    (c : ℕ) (line rest : List ℕ)
    → All (λ x. x ≢ c) line
    → memchr c (line ++ (c ∷ rest)) ≡ some (length line)
unfolding memchr
memchr-append c [] rest h = ground arith
memchr-append c (x ∷ line) rest h = ground (arith, memchr-append c line rest)

-- The line protocol: with a first line of no '\n' and its '\n' in front, `findEOL` points at that
-- '\n', and `retrieveUntil` the place behind it succeeds and leaves what follows the line.
pub line_split :
    {b : Buffer} (line rest : List ℕ)
    → IsValid b
    → All (λ c. c ≢ b'\n') line
    → contents b ≡ line ++ (b'\n' ∷ rest)
    → (find_eol b ≡ some (b.reader_index + length line))
      × ((retrieve_until b (b.reader_index + length line + 1)).0 ≡ true)
      × (contents (retrieve_until b (b.reader_index + length line + 1)).1 ≡ rest)
unfolding find_eol retrieve_until contents
line_split {b} line rest v h e =
    let k = b.writer_index - b.reader_index in
    let total : k ≡ length line + suc (length rest) =
      omega (arith, length-contents v, ap length e, length-append line (b'\n' ∷ rest)) in
    let found : memchr b'\n' (contents b) ≡ some (length line) =
      rw e (memchr-append b'\n' line rest h) in
    let behind : drop (length line + 1) (contents b) ≡ rest =
      rw (e, ← append_assoc line (b'\n' ∷ []) rest)
        (drop-append (length line + 1) (line ++ (b'\n' ∷ [])) rest
          (omega (arith, length-append line (b'\n' ∷ [])))) in
    ground (
      arith,
      total,
      readable_lem v,
      found,
      behind,
      length-contents v,
      retrieve-contents v (length line + 1),
    )
