-- ===== src/Net/Stream/Writer.antt =====
-- ProtocolStream.cpp, `BinaryStreamWriter`. The writer is the string that it appends to; each method
-- returns `true`, which is left out.
use learning_tools.Prelude.{
  ℕ, ◌/◌, ◌%◌, ◌^◌, List, [], ◌∷◌, ◌++◌, Bool, if◌then◌else◌, length, take,
}
use learning_tools.Prelude.Int.{ℤ}
use learning_tools.Prelude.Slices.{write_at}
use learning_tools.Net.Endian.{to_network}
use learning_tools.Net.Stream.SevenBit.{write_7bit_encoded}
use learning_tools.Net.Stream.Decimal.{print_int}

-- The constructor and `Clear`: six bytes of an array that is never written, `header`.
unfoldable pub init : List ℕ → List ℕ
init header = header

unfoldable pub clear : List ℕ → List ℕ → List ℕ
clear m_data header = header

-- `str` is the memory from the pointer on, and `len` bytes of it are written.
unfoldable pub write_c_string : List ℕ → List ℕ → ℕ → List ℕ
write_c_string m_data str len = (m_data ++ write_7bit_encoded len) ++ take len str

unfoldable pub write_string : List ℕ → List ℕ → List ℕ
unfolding write_c_string
write_string m_data str = write_c_string m_data str (length str)

-- An integer in the byte order of the host, lowest byte first.
host_bytes32 : ℕ → List ℕ
host_bytes32 i = i % 256 ∷ (i / 256 % 256) ∷ (i / 65536 % 256) ∷ (i / 16777216 % 256) ∷ []

unfoldable pub write_int32 : List ℕ → ℕ → Bool → List ℕ
unfolding host_bytes32
write_int32 m_data i is_null =
    m_data ++ (if is_null then host_bytes32 999999999 else to_network 4 i)

unfoldable pub write_short : List ℕ → ℕ → Bool → List ℕ
write_short m_data i is_null = m_data ++ (if is_null then 0 ∷ 0 ∷ [] else to_network 2 i)

unfoldable pub write_char : List ℕ → ℕ → Bool → List ℕ
write_char m_data c is_null = m_data ++ ((if is_null then 0 else c) ∷ [])

unfoldable pub write_int64 : List ℕ → ℤ → Bool → List ℕ
unfolding write_c_string
write_int64 m_data value is_null =
    if is_null
    then write_c_string m_data [] 0
    else write_c_string m_data (print_int value) (length (print_int value))

-- `printed` is what `sprintf("%f")` makes of the value: there are no floating-point numbers here.
unfoldable pub write_double : List ℕ → List ℕ → Bool → List ℕ
unfolding write_c_string
write_double m_data printed is_null =
    if is_null then write_c_string m_data [] 0 else write_c_string m_data printed (length printed)

unfoldable pub get_size : List ℕ → ℕ
get_size m_data = length m_data

-- `ulen` is 32 bits wide.
unfoldable pub flush : List ℕ → List ℕ
flush m_data = write_at m_data 0 (to_network 4 (length m_data % 2 ^ 32))
