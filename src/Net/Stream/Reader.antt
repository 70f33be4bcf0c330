-- ===== src/Net/Stream/Reader.antt =====
-- ProtocolStream.cpp, `BinaryStreamReader`. `bytes` is the memory from `ptr` to the end of its
-- allocation, `len` the length that the constructor was given, and `cur` the offset of the cursor.
-- A method that reads memory returns `none` where it reads outside the allocation.
use mathlib.Core.Option
use learning_tools.Prelude.{
  ℕ, zero, suc, ◌+◌, List, [], ◌∷◌, Bool, not, ◌&&◌, Option, none, some, leb, ltb, ◌==◌,
  if◌then◌else◌, length, drop, min,
}
use learning_tools.Prelude.Slices.{slice, write_at}
use learning_tools.Net.Endian.{network_to_host}
use learning_tools.Net.Stream.SevenBit.{read_7bit_encoded32}
use learning_tools.Net.Stream.Decimal.{atoll}
use learning_tools.Prelude.Int.{ℤ}

pub record Reader : Type 0 where
  pub bytes : List ℕ
  pub len : ℕ
  pub cur : ℕ

-- BINARY_PACKLEN_LEN_2 and CHECKSUM_LEN
abbrev pub packlen_len : ℕ
packlen_len = 4

abbrev pub checksum_len : ℕ
checksum_len = 2

unfoldable pub init : List ℕ → ℕ → Reader
init bytes len = record { bytes = bytes; len = len; cur = packlen_len + checksum_len }

pub is_empty : Reader → Bool
is_empty r = leb r.len packlen_len

pub get_size : Reader → ℕ
get_size r = r.len

-- The state and result of a method, behind a possible read outside the allocation.
abbrev pub Step : Type 0 → Type 0
Step A = Option (A × Reader)

-- The loop that fills `char buf[5]`, on the memory from `temp` on: it stops behind the first byte
-- without the top bit.
unfoldable pub copy_head : ℕ → List ℕ → Option (List ℕ)
copy_head zero memory = some []
copy_head (suc left) [] = none
copy_head (suc left) (b ∷ memory) =
    let rest = copy_head left memory in if ltb b 128 then some (b ∷ []) else Option.map (◌∷◌ b) rest

-- A length head: its own width and the length that it holds.
pub record Head : Type 0 where
  pub headlen : ℕ
  pub outlen : ℕ

-- The inner option is the Boolean result.
unfoldable pub read_length_without_offset : Reader → Option (Option Head)
read_length_without_offset r = elim (copy_head 5 (drop r.cur r.bytes)) [
  | none ↦ none
  | some buf ↦
      if ltb r.len (r.cur + length buf)
      then some none
      else Option.map (λ value. some (record { headlen = length buf; outlen = value }))
          (read_7bit_encoded32 buf)
]

pub read_length : Reader → Step (Option ℕ)
unfolding read_length_without_offset
read_length r = elim (read_length_without_offset r) [
  | none ↦ none
  | some none ↦ some (none, r)
  | some (some h) ↦ some (some h.outlen, record r { cur = r.cur + h.headlen })
]

-- How a string is read: no length head, a field longer than the caller's limit, a field cut short by the
-- end of the packet (`outlen` is set to 0), or the bytes of the field.
pub data Field : Type 0 where
  no_length too_long cut_short : Field
  text : List ℕ → Field

-- `memcpy` from the cursor. The packet ends inside its allocation, or the copy leaves it.
copy_out : Reader → ℕ → Step Field
copy_out r n =
    if ltb (length r.bytes) (r.cur + n)
    then none
    else some (text (slice r.cur n r.bytes), record r { cur = r.cur + n })

-- The part that `ReadCString`, `ReadString` and `ReadCCString` share, behind their test of the limit.
take_field : Reader → Head → Step Field
unfolding copy_out
take_field r h =
    let moved = record r { cur = r.cur + h.headlen } in
    if ltb r.len (moved.cur + h.outlen) then some (cut_short, moved) else copy_out moved h.outlen

unfoldable pub read_c_string : Reader → ℕ → Step Field
unfolding take_field
read_c_string r strlen = elim (read_length_without_offset r) [
  | none ↦ none
  | some none ↦ some (no_length, r)
  | some (some h) ↦ if ltb strlen h.outlen then some (too_long, r) else take_field r h
]

unfoldable pub read_string : Reader → ℕ → Step Field
unfolding take_field
read_string r maxlen = elim (read_length_without_offset r) [
  | none ↦ none
  | some none ↦ some (no_length, r)
  | some (some h) ↦
      if not (maxlen == 0) && ltb maxlen h.outlen then some (too_long, r) else take_field r h
]

-- `ReadCCString` hands out a pointer to the field instead of a copy; the model shows the bytes that
-- the pointer and `outlen` denote.
unfoldable pub read_cc_string : Reader → ℕ → Step Field
unfolding read_string
read_cc_string r maxlen = read_string r maxlen

-- `memcpy` of `n` bytes behind the test that they lie in the packet, and the turn to host order.
read_number : ℕ → Reader → Step (Option ℕ)
read_number n r =
    if ltb r.len (r.cur + n)
    then some (none, r)
    else if ltb (length r.bytes) (r.cur + n)
    then none
    else some (some (network_to_host (slice r.cur n r.bytes)), record r { cur = r.cur + n })

unfoldable pub read_int32 : Reader → Step (Option ℕ)
unfolding read_number
read_int32 = read_number 4

unfoldable pub read_short : Reader → Step (Option ℕ)
unfolding read_number
read_short = read_number 2

unfoldable pub read_char : Reader → Step (Option ℕ)
unfolding read_number
read_char = read_number 1

-- `stack` is what `char int64str[128]` holds before the call: the field is copied over its front, and no
-- terminator is written behind it.
unfoldable pub read_int64 : Reader → List ℕ → Step (Option ℤ)
read_int64 r stack = elim (read_c_string r 128) [
  | none ↦ none
  | some (text field, r') ↦ Option.map (λ i. (some i, r')) (atoll (write_at stack 0 field))
  | some (_, r') ↦ some (none, r')
]

-- The assertion is not modelled.
unfoldable pub is_end : Reader → Bool
is_end r = r.cur == r.len

pub read_all : Reader → ℕ → List ℕ
read_all r size = slice 0 (min size r.len) r.bytes
