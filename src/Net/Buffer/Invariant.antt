-- ===== src/Net/Buffer/Invariant.antt =====
-- Buffer.h: 0 <= readerIndex <= writerIndex <= size, and a size that a vector of bytes may have.
-- Under it no `size_t` difference of the class wraps.
use learning_tools.Prelude.{
  ℕ, add_size, sub_size, ◌%◌, ◌+◌, ◌-◌, ◌^◌, ◌≤◌, ◌<◌, ◌≡◌, arith, List, length, length-replicate,
}
use learning_tools.Prelude.Slices.{length-write_at, length-resize, slice}
use learning_tools.Net.Buffer.{
  Buffer, init, readable_bytes, writable_bytes, prependable_bytes, retrieve, ensure_writable_bytes,
  has_written, unwrite, copy_in, prepend, cheap_prepend,
}

pub record IsValid (b : Buffer) : Type 0 where
  pub ordered : b.reader_index ≤ b.writer_index
  pub base : cheap_prepend ≤ length b.storage
  pub inside : b.writer_index ≤ length b.storage
  pub small : length b.storage < 2 ^ 63

-- There is room in the address space for `n` bytes more.
abbrev pub Fits : Buffer → ℕ → Type 0
Fits b n = b.writer_index + n + cheap_prepend < 2 ^ 63

pub init-IsValid : (n : ℕ) → n + cheap_prepend < 2 ^ 63 → IsValid (init n)
unfolding init
init-IsValid n h = omega (arith, length-replicate {A = ℕ} ((cheap_prepend + n) % 2 ^ 64) 0)

module _ {b : Buffer} (v : IsValid b) where
  pub readable_lem : readable_bytes b ≡ b.writer_index - b.reader_index
  unfolding readable_bytes
  readable_lem = omega arith

  pub writable_lem : writable_bytes b ≡ length b.storage - b.writer_index
  unfolding writable_bytes
  writable_lem = omega arith

  pub retrieve-IsValid : (n : ℕ) → IsValid (retrieve b n).1
  unfolding retrieve
  retrieve-IsValid n = ground (arith, readable_lem)

  pub unwrite-IsValid : (n : ℕ) → IsValid (unwrite b n).1
  unfolding unwrite
  unwrite-IsValid n = ground (arith, readable_lem)

  pub has_written-IsValid : (n : ℕ) → IsValid (has_written b n).1
  unfolding has_written
  has_written-IsValid n = ground (arith, writable_lem)

  pub copy_in-IsValid : (bytes : List ℕ) → IsValid (copy_in b bytes)
  unfolding copy_in
  copy_in-IsValid bytes = ground (arith, length-write_at b.storage b.writer_index bytes)

  pub prepend-IsValid : (bytes : List ℕ) → IsValid (prepend b bytes).1
  unfolding prepend prependable_bytes
  prepend-IsValid bytes =
      ground (arith, length-write_at b.storage (sub_size b.reader_index (length bytes)) bytes)

  pub ensure_writable_bytes-IsValid : (n : ℕ) → Fits b n → IsValid (ensure_writable_bytes b n)
  unfolding ensure_writable_bytes prependable_bytes
  ensure_writable_bytes-IsValid n f = ground (
    arith,
    readable_lem,
    writable_lem,
    length-resize b.storage (add_size b.writer_index n) 0,
    length-write_at b.storage cheap_prepend
        (slice b.reader_index (sub_size b.writer_index b.reader_index) b.storage),
  )
