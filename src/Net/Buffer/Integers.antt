-- ===== src/Net/Buffer/Integers.antt =====
-- Buffer.h: integers in network byte order, appended, prepended, peeked and read. An integer is its
-- bit pattern, so that -1, which a peek at too few bytes gives, is 2 ^ w - 1.
pub mod RoundTrip
use learning_tools.Prelude.{ℕ, ◌-◌, ◌^◌, List, [], ◌∷◌, ltb, if◌then◌else◌}
use learning_tools.Prelude.Slices.{slice}
use learning_tools.Net.Endian.{
  host_to_network64, host_to_network32, host_to_network16, network_to_host,
}
use learning_tools.Net.Buffer.{Buffer, readable_bytes, retrieve, append, prepend}

pub append_int64 : Buffer → ℕ → Buffer
append_int64 b x = append b (host_to_network64 x)

pub append_int32 : Buffer → ℕ → Buffer
append_int32 b x = append b (host_to_network32 x)

pub append_int16 : Buffer → ℕ → Buffer
append_int16 b x = append b (host_to_network16 x)

pub append_int8 : Buffer → ℕ → Buffer
append_int8 b x = append b (x ∷ [])

-- `memcpy(&be, peek(), w)` and the turn into host order, behind the check for `w` bytes.
peek_bytes : ℕ → Buffer → ℕ
peek_bytes w b =
    if ltb (readable_bytes b) w
    then 256 ^ w - 1
    else network_to_host (slice b.reader_index w b.storage)

pub peek_int64 : Buffer → ℕ
unfolding peek_bytes
peek_int64 = peek_bytes 8

unfoldable pub peek_int32 : Buffer → ℕ
unfolding peek_bytes
peek_int32 = peek_bytes 4

pub peek_int16 : Buffer → ℕ
unfolding peek_bytes
peek_int16 = peek_bytes 2

pub peek_int8 : Buffer → ℕ
unfolding peek_bytes
peek_int8 = peek_bytes 1

pub retrieve_int64 : Buffer → Buffer
retrieve_int64 b = (retrieve b 8).1

pub retrieve_int32 : Buffer → Buffer
retrieve_int32 b = (retrieve b 4).1

pub retrieve_int16 : Buffer → Buffer
retrieve_int16 b = (retrieve b 2).1

pub retrieve_int8 : Buffer → Buffer
retrieve_int8 b = (retrieve b 1).1

pub read_int64 : Buffer → ℕ × Buffer
unfolding peek_int64 retrieve_int64
read_int64 b = (peek_int64 b, retrieve_int64 b)

pub read_int32 : Buffer → ℕ × Buffer
unfolding peek_int32 retrieve_int32
read_int32 b = (peek_int32 b, retrieve_int32 b)

pub read_int16 : Buffer → ℕ × Buffer
unfolding peek_int16 retrieve_int16
read_int16 b = (peek_int16 b, retrieve_int16 b)

pub read_int8 : Buffer → ℕ × Buffer
unfolding peek_int8 retrieve_int8
read_int8 b = (peek_int8 b, retrieve_int8 b)

-- The result of `prepend` is ignored.
pub prepend_int64 : Buffer → ℕ → Buffer
prepend_int64 b x = (prepend b (host_to_network64 x)).1

pub prepend_int32 : Buffer → ℕ → Buffer
prepend_int32 b x = (prepend b (host_to_network32 x)).1

pub prepend_int16 : Buffer → ℕ → Buffer
prepend_int16 b x = (prepend b (host_to_network16 x)).1

pub prepend_int8 : Buffer → ℕ → Buffer
prepend_int8 b x = (prepend b (x ∷ [])).1
