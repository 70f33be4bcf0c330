-- ===== src/Net/Buffer.antt =====
-- mudou/net/Buffer.h and Buffer.cpp: the byte buffer of a connection.
-- A pointer into the buffer is an index of `storage`; a `char` is its bit pattern, below 256. A
-- method returns what it returns beside the buffer as it leaves it. Allocation succeeds.
pub mod Invariant
pub mod Contents
pub mod Integers
pub mod Search
pub mod ReadFd
pub mod Shrink
pub mod Queue
mod Tests
use learning_tools.Prelude.{
  ℕ, zero, suc, ◌+◌, ◌-◌, ◌%◌, ◌^◌, List, [], ◌∷◌, ◌++◌, Option, none, some, Bool, true, false,
  ◌&&◌, if◌then◌else◌, ltb, leb, ◌==◌, length, take, drop, replicate, add_size, sub_size,
}
use learning_tools.Prelude.Slices.{write_at, slice, resize}
use learning_tools.Net.Endian.{
  host_to_network64, host_to_network32, host_to_network16, network_to_host,
}

pub record Buffer : Type 0 where
  pub storage : List ℕ
  pub reader_index : ℕ
  pub writer_index : ℕ

abbrev pub cheap_prepend : ℕ
cheap_prepend = 8

abbrev pub initial_size : ℕ
initial_size = 1024

unfoldable pub init : ℕ → Buffer
init size = record {
  storage = replicate (add_size cheap_prepend size) 0;
  reader_index = cheap_prepend;
  writer_index = cheap_prepend;
}

unfoldable pub readable_bytes : Buffer → ℕ
readable_bytes b = sub_size b.writer_index b.reader_index

unfoldable pub writable_bytes : Buffer → ℕ
writable_bytes b = sub_size (length b.storage) b.writer_index

pub prependable_bytes : Buffer → ℕ
prependable_bytes b = b.reader_index

unfoldable pub retrieve_all : Buffer → Buffer
retrieve_all b = record b { reader_index = cheap_prepend; writer_index = cheap_prepend }

unfoldable pub retrieve : Buffer → ℕ → Bool × Buffer
unfolding retrieve_all
retrieve b len =
    if ltb (readable_bytes b) len
    then (false, b)
    else if ltb len (readable_bytes b)
    then (true, record b { reader_index = add_size b.reader_index len })
    else (true, retrieve_all b)

pub retrieve_until : Buffer → ℕ → Bool × Buffer
retrieve_until b end =
    if ltb end b.reader_index
    then (false, b)
    else if ltb b.writer_index end
    then (false, b)
    else (true, (retrieve b (sub_size end b.reader_index)).1)

pub retrieve_as_string : Buffer → ℕ → List ℕ × Buffer
retrieve_as_string b len =
    if ltb (readable_bytes b) len
    then ([], b)
    else (slice b.reader_index len b.storage, (retrieve b len).1)

pub retrieve_all_as_string : Buffer → List ℕ × Buffer
unfolding retrieve_as_string
retrieve_all_as_string b = retrieve_as_string b (readable_bytes b)

-- The length passes through `static_cast<int>`: a length that comes out negative makes
-- `std::string` throw, which is `none`.
pub to_string_piece : Buffer → Option (List ℕ)
to_string_piece b =
    let len = readable_bytes b % 2 ^ 32 in
    if ltb len (2 ^ 31) then some (slice b.reader_index len b.storage) else none

pub make_space : Buffer → ℕ → Buffer
make_space b len =
    if ltb (add_size (writable_bytes b) (prependable_bytes b)) (add_size len cheap_prepend)
    then record b { storage = resize b.storage (add_size b.writer_index len) 0 }
    else if leb b.reader_index cheap_prepend
    then b
    else record {
      storage =
          write_at b.storage cheap_prepend
            (slice b.reader_index (sub_size b.writer_index b.reader_index) b.storage);
      reader_index = cheap_prepend;
      writer_index = add_size cheap_prepend (readable_bytes b);
    }

-- The method returns `true` on every path.
unfoldable pub ensure_writable_bytes : Buffer → ℕ → Buffer
unfolding make_space
ensure_writable_bytes b len = if ltb (writable_bytes b) len then make_space b len else b

unfoldable pub has_written : Buffer → ℕ → Bool × Buffer
has_written b len =
    if ltb (writable_bytes b) len
    then (false, b)
    else (true, record b { writer_index = add_size b.writer_index len })

pub unwrite : Buffer → ℕ → Bool × Buffer
unwrite b len =
    if ltb (readable_bytes b) len
    then (false, b)
    else (true, record b { writer_index = sub_size b.writer_index len })

-- `std::copy(data, data + len, beginWrite())`
unfoldable pub copy_in : Buffer → List ℕ → Buffer
copy_in b bytes = record b { storage = write_at b.storage b.writer_index bytes }

unfoldable pub append : Buffer → List ℕ → Buffer
append b bytes =
    (has_written (copy_in (ensure_writable_bytes b (length bytes)) bytes) (length bytes)).1

pub prepend : Buffer → List ℕ → Bool × Buffer
prepend b bytes =
    if ltb (prependable_bytes b) (length bytes)
    then (false, b)
    else let start = sub_size b.reader_index (length bytes) in
      (true, record b { storage = write_at b.storage start bytes; reader_index = start })

-- `other` starts as a fresh buffer and ends in the place of `b` (`swap`).
pub shrink : Buffer → ℕ → Option Buffer
shrink b reserve = elim (to_string_piece b) [
  | none ↦ none
  | some bytes ↦ some (
      append (ensure_writable_bytes (init initial_size) (add_size (readable_bytes b) reserve))
        bytes)
]
