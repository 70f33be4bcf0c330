-- ===== src/Net/Buffer/Shrink.antt =====
-- Buffer.h, `shrink`: the readable bytes move to a new buffer.
use learning_tools.Prelude.{
  ℕ, ◌+◌, ◌-◌, ◌%◌, ◌^◌, ◌≤◌, ◌<◌, ◌≡◌, refl, ap, ◌∙◌, arith, [], ◌++◌, length, none, some, ltb,
  true, add_size,
}
use learning_tools.Prelude.Slices.{slice-zero, length-slice}
use learning_tools.Net.Buffer.{
  Buffer, init, initial_size, readable_bytes, to_string_piece, ensure_writable_bytes, append,
  shrink, cheap_prepend,
}
use learning_tools.Net.Buffer.Invariant.{
  IsValid, Fits, readable_lem, init-IsValid, ensure_writable_bytes-IsValid,
}
use learning_tools.Net.Buffer.Contents.{
  contents, length-contents, ensure_lem, append-IsValid, append-contents,
}

fresh-IsValid : IsValid (init initial_size)
fresh-IsValid = init-IsValid initial_size (omega arith)

fresh-contents : contents (init initial_size) ≡ []
unfolding contents init
fresh-contents = slice-zero cheap_prepend _

to_string_piece_lem :
    {b : Buffer} → IsValid b → length (contents b) < 2 ^ 31 → to_string_piece b ≡ some (contents b)
unfolding to_string_piece contents
to_string_piece_lem {b} v short =
    let k = b.writer_index - b.reader_index in
    let len = length-slice b.reader_index k b.storage in
    let whole : readable_bytes b % 2 ^ 32 ≡ k = omega (arith, readable_lem v, len) in
    let passes : ltb k (2 ^ 31) ≡ true = ground (arith, len) in rw (whole, passes)

-- Below 2 ^ 31 readable bytes, `shrink` succeeds and keeps them all, whatever reserve is asked for,
-- as long as it fits the address space.
shrink-contents :
    {b : Buffer} (reserve : ℕ)
    → IsValid b
    → length (contents b) < 2 ^ 31
    → reserve < 2 ^ 62
    → (b' : Buffer) × (shrink b reserve ≡ some b') × IsValid b' × (contents b' ≡ contents b)
unfolding shrink
shrink-contents {b} reserve v short small =
    let len = length-contents v in
    let n = add_size (readable_bytes b) reserve in
    let total : n < 2 ^ 62 + 2 ^ 31 = omega (arith, readable_lem v, len) in
    let first : (init initial_size).writer_index ≡ cheap_prepend = unfold init in refl in
    let grown_fits : Fits (init initial_size) n = omega (arith, total, first) in
    let (same, room, low) = ensure_lem fresh-IsValid n grown_fits in
    let valid = ensure_writable_bytes-IsValid fresh-IsValid n grown_fits in
    let fits : Fits (ensure_writable_bytes (init initial_size) n) (length (contents b)) =
      omega (arith, len, low, first) in
    (
      append (ensure_writable_bytes (init initial_size) n) (contents b),
      rw (to_string_piece_lem v short, shrink),
      append-IsValid valid (contents b) fits,
      append-contents valid (contents b) fits ∙ ap (λ c. c ++ contents b) (same ∙ fresh-contents),
    )

-- From 2 ^ 31 readable bytes on, up to 2 ^ 32, the length turns negative on its way through `int`, and `shrink` throws.
pub shrink_throws :
    {b : Buffer} (reserve : ℕ)
    → IsValid b
    → 2 ^ 31 ≤ length (contents b)
    → length (contents b) < 2 ^ 32
    → shrink b reserve ≡ none
unfolding shrink to_string_piece
shrink_throws {b} reserve v long below = ground (arith, readable_lem v, length-contents v)
