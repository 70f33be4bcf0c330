-- ===== src/Net/Buffer/Search.antt =====
-- Buffer.h: the searches among the readable bytes. A pointer that is found is an index of the storage,
-- and `nullptr` is `none`.
pub mod Laws
use learning_tools.Prelude.{
  ℕ, zero, suc, ◌+◌, List, [], ◌∷◌, Option, none, some, Bool, true, false, ◌&&◌, if◌then◌else◌, ltb,
  ◌==◌, add_size, sub_size,
}
use learning_tools.Prelude.Slices.{slice}
use mathlib.Core.Option
use learning_tools.Net.Buffer.{Buffer, readable_bytes}

pub starts_with : List ℕ → List ℕ → Bool
starts_with [] xs = true
starts_with (p ∷ ps) [] = false
starts_with (p ∷ ps) (x ∷ xs) = p == x && starts_with ps xs

-- `std::search`: how far into the range the pattern first stands, or the length of the range.
pub search_range : List ℕ → List ℕ → ℕ
unfolding starts_with
search_range pat [] = 0
search_range pat (x ∷ xs) = if starts_with pat (x ∷ xs) then 0 else suc (search_range pat xs)

-- `memchr`
pub memchr : ℕ → List ℕ → Option ℕ
memchr c [] = none
memchr c (x ∷ xs) = if x == c then some 0 else Option.map suc (memchr c xs)

-- The bytes in [start, beginWrite()).
abbrev pub range_from : Buffer → ℕ → List ℕ
range_from b start = slice start (sub_size b.writer_index start) b.storage

abbrev pub crlf : List ℕ
crlf = 13 ∷ 10 ∷ []

-- `found == beginWrite() ? nullptr : found`
null_at_end : Buffer → ℕ → Option ℕ
null_at_end b found = if found == b.writer_index then none else some found

pub find_string : Buffer → List ℕ → Option ℕ
unfolding null_at_end search_range
find_string b target =
    null_at_end b (add_size b.reader_index (search_range target (range_from b b.reader_index)))

pub find_crlf : Buffer → Option ℕ
unfolding null_at_end search_range
find_crlf b =
    null_at_end b (add_size b.reader_index (search_range crlf (range_from b b.reader_index)))

pub find_crlf_from : Buffer → ℕ → Option ℕ
unfolding null_at_end search_range
find_crlf_from b start =
    if ltb start b.reader_index
    then none
    else if ltb b.writer_index start
    then none
    else null_at_end b (add_size start (search_range crlf (range_from b start)))

pub find_eol : Buffer → Option ℕ
unfolding memchr
find_eol b =
    Option.map (add_size b.reader_index)
      (memchr b'\n' (slice b.reader_index (readable_bytes b) b.storage))

pub find_eol_from : Buffer → ℕ → Option ℕ
unfolding memchr
find_eol_from b start =
    if ltb start b.reader_index
    then none
    else if ltb b.writer_index start
    then none
    else Option.map (add_size start) (memchr b'\n' (range_from b start))
