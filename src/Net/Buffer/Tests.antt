-- ===== src/Net/Buffer/Tests.antt =====
-- Runs of the buffer at concrete inputs, and its theorems at inputs that meet their hypotheses.
use learning_tools.Prelude.{
  ℕ, ◌-◌, ◌^◌, ◌≤◌, ◌≡◌, refl, arith, List, [], ◌∷◌, ◌++◌, length, some, true, drop, leb,
  if◌then◌else◌,
}
use learning_tools.Net.Endian.{to_network}
use learning_tools.Prelude.Slices.{slice, write_at, resize}
use learning_tools.Net.Buffer.{
  Buffer, init, readable_bytes, writable_bytes, retrieve_until, append, prepend, prependable_bytes,
  ensure_writable_bytes, has_written, copy_in,
}
use learning_tools.Net.Buffer.Invariant.{IsValid}
use learning_tools.Net.Buffer.Contents.{contents, prepend-contents}
use learning_tools.Net.Buffer.Integers.{peek_int32}
use learning_tools.Net.Buffer.Integers.RoundTrip.{
  Item, int64, int32, int16, int8, append_all, read_all, read_all-append_all, encoded, encoded_all,
}
use learning_tools.Net.Buffer.Search.{find_eol, find_string}
use learning_tools.Net.Buffer.Search.Laws.{line_split, FirstFrom, find_string-FirstFrom}
use learning_tools.Net.Buffer.ReadFd.{
  read_fd, delivered, failed, read_count, read_error, read_fd_lem, offered, extrabuf_size,
}
use learning_tools.Net.Buffer.Queue.{
  Call, appends, retrieves, takes_string, ensures, unwrites, run, queue_run, run_refines, demands,
}

-- Four bytes of room behind the eight in front.
abbrev small : Buffer
small = record {
  storage = 0 ∷ 0 ∷ 0 ∷ 0 ∷ 0 ∷ 0 ∷ 0 ∷ 0 ∷ 0 ∷ 0 ∷ 0 ∷ 0 ∷ [];
  reader_index = 8;
  writer_index = 8;
}

-- "GET\n4" is readable, behind a gap of one byte that was retrieved.
abbrev request : Buffer
request = record {
  storage = 0 ∷ 0 ∷ 0 ∷ 0 ∷ 0 ∷ 0 ∷ 0 ∷ 0 ∷ 0 ∷ 71 ∷ 69 ∷ 84 ∷ 10 ∷ 52 ∷ 0 ∷ [];
  reader_index = 9;
  writer_index = 14;
}

init_small : init 4 ≡ small
unfolding init
init_small = refl

small-IsValid : IsValid small
small-IsValid = omega arith

request-IsValid : IsValid request
request-IsValid = omega arith

contents-request : contents request ≡ 71 ∷ 69 ∷ 84 ∷ 10 ∷ 52 ∷ []
unfolding contents slice
contents-request = refl

append_grows : (append small (1 ∷ 2 ∷ 3 ∷ 4 ∷ 5 ∷ [])).writer_index ≡ 13
unfolding append ensure_writable_bytes writable_bytes prependable_bytes has_written copy_in resize
    write_at
append_grows = refl

-- With one byte too few at the end and one to spare in front, the storage does not grow: the bytes
-- move to the front.
append_moves : length (append request (7 ∷ 8 ∷ [])).storage ≡ 15
unfolding append ensure_writable_bytes writable_bytes prependable_bytes readable_bytes has_written
    copy_in write_at slice
append_moves = refl

peek_too_short : peek_int32 small ≡ 0xffff_ffff
unfolding peek_int32 readable_bytes
peek_too_short = refl

abbrev session : List Call
session = ensures 3 ∷ appends (1 ∷ 2 ∷ 3 ∷ []) ∷ takes_string 7 ∷ retrieves 9 ∷ unwrites 1 ∷ []

run_refines_example : run request session ≡ queue_run (contents request) session
run_refines_example = run_refines session request-IsValid (unfold demands in omega arith)

prepend-contents_example :
    ((prepend request (9 ∷ 9 ∷ [])).0 ≡ leb 2 (prependable_bytes request))
    × (contents (prepend request (9 ∷ 9 ∷ [])).1 ≡ (
        if leb 2 (prependable_bytes request) then 9 ∷ 9 ∷ contents request else contents request))
prepend-contents_example = prepend-contents request-IsValid (9 ∷ 9 ∷ [])

abbrev header : List Item
header = int16 513 ∷ int64 (2 ^ 64 - 1) ∷ int8 7 ∷ int32 70000 ∷ []

read_all-append_all_example :
    let (read, left) = read_all (append_all small header) header in
    (read ≡ header) × IsValid left × (contents left ≡ [])
read_all-append_all_example =
    read_all-append_all header small-IsValid (omega arith)
      (unfold encoded_all encoded to_network in omega arith) (unfold contents slice in refl)

find_string-FirstFrom_example :
    FirstFrom request (69 ∷ 84 ∷ []) 9 (find_string request (69 ∷ 84 ∷ []))
find_string-FirstFrom_example = find_string-FirstFrom (69 ∷ 84 ∷ []) request-IsValid

line_split_example :
    (find_eol request ≡ some 12)
    × ((retrieve_until request 13).0 ≡ true)
    × (contents (retrieve_until request 13).1 ≡ 52 ∷ [])
line_split_example =
    line_split (71 ∷ 69 ∷ 84 ∷ []) (52 ∷ []) request-IsValid (omega arith) contents-request

abbrev packet : List ℕ
packet = 1 ∷ 2 ∷ 3 ∷ 4 ∷ 5 ∷ []

read_fd_lem_example :
    let (result, b') = read_fd small (delivered packet) in
    (result ≡ read_count 5)
    × IsValid b'
    × (contents b' ≡ contents small ++ packet)
    × (length (drop (writable_bytes small) packet) ≤ extrabuf_size)
    × (read_fd small (failed 11) ≡ (read_error 11, small))
read_fd_lem_example =
    read_fd_lem packet 11 small-IsValid (omega arith) (unfold offered writable_bytes in omega arith)
