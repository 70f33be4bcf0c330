-- ===== src/Net/Buffer/ReadFd.antt =====
-- Buffer.cpp, `readFd` as built on Linux: one `readv` into the writable block and a 64 KiB block on
-- the stack.
use learning_tools.Prelude.{
  ℕ, ◌+◌, ◌-◌, ◌≤◌, ◌≡◌, refl, ap, ◌∙◌, arith, List, [], ◌∷◌, ◌++◌, length, take, drop, length-take,
  length-drop, take-append-drop, false, leb, ltb, ◌==◌, if◌then◌else◌, inl, inr, Bool-cases,
}
use learning_tools.Prelude.Slices.{write_at, take_all, slice-write_at_end, length-write_at}
use native.Mathlib.Nat.{add-zero}
use mathlib.Core.List.{append_assoc}
use learning_tools.Net.Buffer.{Buffer, writable_bytes, append}
use learning_tools.Net.Buffer.Invariant.{IsValid, Fits, writable_lem}
use learning_tools.Net.Buffer.Contents.{contents, append-contents, append-IsValid}

-- What the kernel answers: an error number, or the bytes that it delivers (none at the end of the
-- stream).
pub data ReadvAnswer : Type 0 where
  failed : ℕ → ReadvAnswer
  delivered : List ℕ → ReadvAnswer

-- What `readFd` returns: the count, or -1 with the saved `errno`.
pub data ReadResult : Type 0 where
  read_error : ℕ → ReadResult
  read_count : ℕ → ReadResult

abbrev pub extrabuf_size : ℕ
extrabuf_size = 65536

-- The room that is offered to the kernel: `iovcnt` is 2 if the writable block is the smaller one.
unfoldable pub offered : Buffer → ℕ
offered b =
    if ltb (writable_bytes b) extrabuf_size
    then writable_bytes b + extrabuf_size
    else writable_bytes b

-- `readv` fills the writable block first, and `extrabuf` with what is left.
scatter : Buffer → List ℕ → Buffer
scatter b bytes = record b {
  storage = write_at b.storage b.writer_index (take (writable_bytes b) bytes);
}

pub read_fd : Buffer → ReadvAnswer → ReadResult × Buffer
unfolding scatter
read_fd b (failed errno) = (read_error errno, b)
read_fd b (delivered bytes) =
    let n = length bytes in
    let writable = writable_bytes b in
    let b' = scatter b bytes in
    if n == 0
    then (read_count 0, b')
    else if leb n writable
    then (read_count n, record b' { writer_index = b'.writer_index + n })
    else (
      read_count n,
      append (record b' { writer_index = length b'.storage }) (drop writable bytes),
    )

-- The bytes copied into the writable block, and the write index behind them.
abbrev filled : Buffer → List ℕ → Buffer
filled b part = record b {
  storage = write_at b.storage b.writer_index part;
  writer_index = b.writer_index + length part;
}

filled_lem :
    {b : Buffer} (part : List ℕ)
    → IsValid b
    → length part ≤ writable_bytes b
    → IsValid (filled b part) × (contents (filled b part) ≡ contents b ++ part)
unfolding contents
filled_lem {b} part v h =
    let k = b.writer_index - b.reader_index in
    let grown : b.writer_index + length part - b.reader_index ≡ k + length part = omega arith in
    let len = length-write_at b.storage b.writer_index part in
    let room : b.writer_index + length part ≤ length b.storage = omega (arith, writable_lem v) in
    (
      omega (arith, len),
      rw grown
          (slice-write_at_end b.storage part b.reader_index k b.writer_index (omega arith) room),
    )

module _ {b : Buffer} (bytes : List ℕ) (v : IsValid b) (f : Fits b (length bytes)) where
  -- What fits into the writable block.
  direct_read :
      length bytes ≤ writable_bytes b
      → let b' = record (scatter b bytes) { writer_index = b.writer_index + length bytes } in
        IsValid b' × (contents b' ≡ contents b ++ bytes)
  unfolding scatter
  direct_read h = rw (take_all (writable_bytes b) bytes h) (filled_lem bytes v h)

  -- What overflows: the writable block is full, and `append` adds the rest.
  overflow_read :
      writable_bytes b ≤ length bytes
      → let full = record (scatter b bytes) { writer_index = length (scatter b bytes).storage } in
        let b' = append full (drop (writable_bytes b) bytes) in
        IsValid b' × (contents b' ≡ contents b ++ bytes)
  unfolding scatter
  overflow_read h =
      let n = writable_bytes b in
      let part = take n bytes in
      let rest = drop n bytes in
      let len = length-take n bytes in
      let end : length (write_at b.storage b.writer_index part) ≡ b.writer_index + length part =
        omega (arith, len, writable_lem v, length-write_at b.storage b.writer_index part) in
      let (valid, same) = filled_lem part v (omega (arith, len)) in
      let fits : Fits (filled b part) (length rest) = omega (arith, len, length-drop n bytes) in
      rw end (
        append-IsValid valid rest fits,
        append-contents valid rest fits
            ∙ ap (λ c. c ++ rest) same
            ∙ append_assoc (contents b) part rest
            ∙ ap (◌++◌ (contents b)) (take-append-drop n bytes),
      )

-- A read within the room that was offered adds the bytes delivered behind the readable bytes, all of
-- them and in order, whether or not they overflow into the block on the stack, which is large enough
-- for the overflow; it returns their number. An error changes nothing.
pub read_fd_lem :
    {b : Buffer} (bytes : List ℕ) (errno : ℕ)
    → IsValid b
    → Fits b (length bytes)
    → length bytes ≤ offered b
    → let (result, b') = read_fd b (delivered bytes) in
      (result ≡ read_count (length bytes))
      × IsValid b'
      × (contents b' ≡ contents b ++ bytes)
      × (length (drop (writable_bytes b) bytes) ≤ extrabuf_size)
      × (read_fd b (failed errno) ≡ (read_error errno, b))
unfolding read_fd offered
read_fd_lem {b} [] errno v f room =
    let (valid, same) = direct_read [] v f (omega arith) in
    (
      refl,
      rw add-zero at valid,
      rw add-zero at same,
      ground (arith, length-drop {A = ℕ} (writable_bytes b) []),
      refl,
    )
read_fd_lem {b} (x ∷ xs) errno v f room =
    let bytes = x ∷ xs in
    let some_bytes : (length bytes == 0) ≡ false = ground arith in
    let spill : length (drop (writable_bytes b) bytes) ≤ extrabuf_size =
      ground (arith, length-drop (writable_bytes b) bytes) in
    elim (Bool-cases (leb (length bytes) (writable_bytes b))) [
      | inl within ↦
          let (valid, same) = direct_read bytes v f (ground arith) in
          rw (some_bytes, within) (refl, valid, same, spill, refl)
      | inr beyond ↦
          let (valid, same) = overflow_read bytes v f (ground arith) in
          rw (some_bytes, beyond) (refl, valid, same, spill, refl)
    ]
