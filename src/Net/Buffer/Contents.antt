-- ===== src/Net/Buffer/Contents.antt =====
-- Buffer.h as a queue of bytes: what each method does to the readable bytes.
use learning_tools.Prelude.{
  ℕ, ◌+◌, ◌-◌, ◌≤◌, ◌≡◌, ap, ◌∙◌, arith, List, [], ◌++◌, length, take, drop, leb, if◌then◌else◌,
  add_size, sub_size,
}
use learning_tools.Prelude.Slices.{
  write_at, slice, length-write_at, length-resize, length-slice, slice-write_at_end,
  slice-write_at_self, slice-write_at_front, slice-resize, slice-zero, drop-slice, take-slice,
}
use learning_tools.Net.Buffer.{
  Buffer, writable_bytes, prependable_bytes, retrieve, retrieve_all, ensure_writable_bytes,
  has_written, unwrite, copy_in, append, prepend, cheap_prepend, retrieve_as_string,
}
use learning_tools.Net.Buffer.Invariant.{
  IsValid, Fits, readable_lem, writable_lem, ensure_writable_bytes-IsValid, copy_in-IsValid,
  has_written-IsValid,
}

-- The bytes between the two indices.
unfoldable pub contents : Buffer → List ℕ
contents b = slice b.reader_index (b.writer_index - b.reader_index) b.storage

module _ {b : Buffer} (v : IsValid b) where
  pub length-contents : length (contents b) ≡ b.writer_index - b.reader_index
  unfolding contents
  length-contents = length-slice b.reader_index _ b.storage (omega arith)

  -- `ensureWritableBytes` moves or grows the storage: the readable bytes stay, and there is room.
  pub ensure_lem :
      (n : ℕ)
      → Fits b n
      → let b' = ensure_writable_bytes b n in
        (contents b' ≡ contents b) × (n ≤ writable_bytes b') × (b'.writer_index ≤ b.writer_index)
  unfolding contents ensure_writable_bytes prependable_bytes writable_bytes
  ensure_lem n f = ground (
    arith,
    readable_lem v,
    length-resize b.storage (add_size b.writer_index n) 0,
    length-write_at b.storage cheap_prepend
        (slice b.reader_index (sub_size b.writer_index b.reader_index) b.storage),
    slice-resize b.reader_index (b.writer_index - b.reader_index) b.storage
        (add_size b.writer_index n) 0,
    length-slice b.reader_index (b.writer_index - b.reader_index) b.storage,
    slice-write_at_self b.storage
        (slice b.reader_index (sub_size b.writer_index b.reader_index) b.storage) cheap_prepend,
  )

  copy_in-contents :
      (bytes : List ℕ)
      → length bytes ≤ writable_bytes b
      → contents (has_written (copy_in b bytes) (length bytes)).1 ≡ contents b ++ bytes
  unfolding contents has_written copy_in writable_bytes
  copy_in-contents bytes h =
      let grown : b.writer_index + length bytes - b.reader_index
          ≡ b.writer_index - b.reader_index + length bytes =
        omega arith in
      ground (
        arith,
        writable_lem v,
        length-write_at b.storage b.writer_index bytes,
        slice-write_at_end b.storage bytes b.reader_index (b.writer_index - b.reader_index)
            b.writer_index,
        ap (λ k. slice b.reader_index k (write_at b.storage b.writer_index bytes)) grown,
      )

module _ {b : Buffer} (v : IsValid b) where
  pub append-IsValid : (bytes : List ℕ) → Fits b (length bytes) → IsValid (append b bytes)
  unfolding append
  append-IsValid bytes f =
      has_written-IsValid (copy_in-IsValid (ensure_writable_bytes-IsValid v (length bytes) f) bytes)
        (length bytes)

  -- `append` adds its bytes behind the readable bytes.
  pub append-contents :
      (bytes : List ℕ) → Fits b (length bytes) → contents (append b bytes) ≡ contents b ++ bytes
  unfolding append
  append-contents bytes f =
      let (same, room, _) = ensure_lem v (length bytes) f in
      copy_in-contents (ensure_writable_bytes-IsValid v (length bytes) f) bytes room
      ∙ ap (λ c. c ++ bytes) same

  -- `retrieve` drops from the front; asked for more than there is, it refuses and changes nothing.
  pub retrieve-contents :
      (n : ℕ)
      → ((retrieve b n).0 ≡ leb n (length (contents b)))
        × (contents (retrieve b n).1
            ≡ (if leb n (length (contents b)) then drop n (contents b) else contents b))
  unfolding retrieve retrieve_all contents
  retrieve-contents n =
      let k = b.writer_index - b.reader_index in
      ground (
        arith,
        readable_lem v,
        length-slice b.reader_index k b.storage,
        drop-slice n b.reader_index k b.storage,
        slice-zero cheap_prepend b.storage,
        slice-zero (b.reader_index + n) b.storage,
      )

  pub unwrite-contents :
      (n : ℕ)
      → ((unwrite b n).0 ≡ leb n (length (contents b)))
        × (contents (unwrite b n).1 ≡ (
            if leb n (length (contents b))
            then take (length (contents b) - n) (contents b)
            else contents b))
  unfolding unwrite contents
  unwrite-contents n =
      let k = b.writer_index - b.reader_index in
      ground (
        arith,
        readable_lem v,
        length-slice b.reader_index k b.storage,
        take-slice (k - n) b.reader_index k b.storage,
      )

  pub retrieve_as_string-contents :
      (n : ℕ)
      → ((retrieve_as_string b n).0
          ≡ (if leb n (length (contents b)) then take n (contents b) else []))
        × (contents (retrieve_as_string b n).1
            ≡ (if leb n (length (contents b)) then drop n (contents b) else contents b))
  unfolding retrieve_as_string contents
  retrieve_as_string-contents n =
      let k = b.writer_index - b.reader_index in
      ground (
        arith,
        readable_lem v,
        retrieve-contents n,
        length-slice b.reader_index k b.storage,
        take-slice n b.reader_index k b.storage,
      )

  pub prepend-contents :
      (bytes : List ℕ)
      → ((prepend b bytes).0 ≡ leb (length bytes) (prependable_bytes b))
        × (contents (prepend b bytes).1 ≡ (
            if leb (length bytes) (prependable_bytes b) then bytes ++ contents b else contents b))
  unfolding prepend contents prependable_bytes
  prepend-contents bytes =
      let k = b.writer_index - b.reader_index in
      ground (
        arith,
        slice-write_at_front b.storage bytes (sub_size b.reader_index (length bytes)) b.reader_index
            k,
      )

  -- The write index rises by the bytes appended at most.
  pub append-Fits : (bytes : List ℕ) (n : ℕ) → Fits b (length bytes + n) → Fits (append b bytes) n
  unfolding append has_written copy_in
  append-Fits bytes n f =
      let fits : Fits b (length bytes) = omega arith in
      let (_, room, low) = ensure_lem v (length bytes) fits in
      let valid = ensure_writable_bytes-IsValid v (length bytes) fits in
      ground (arith, room, low, valid.inside, valid.small)
