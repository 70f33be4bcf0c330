-- ===== src/Net/Stream/Message.antt =====
-- ProtocolStream.cpp: a whole packet, written field by field and read back.
pub mod Fields
pub mod Packet
use learning_tools.Prelude.{
  ℕ, ◌+◌, ◌<◌, ◌^◌, ◌≤◌, List, [], ◌∷◌, Bool, true, false, Option, none, some, length, All,
}
use learning_tools.Prelude.Int.{ℤ, pos, negsuc}
use mathlib.Core.Option
use learning_tools.Net.Stream.Reader.{
  Reader, Step, Field, text, no_length, too_long, cut_short, read_string, read_int32, read_short,
  read_char, read_int64,
}
use learning_tools.Net.Stream.Writer.{
  write_string, write_int32, write_short, write_char, write_int64,
}

-- The fields of a packet.
pub data Item : Type 0 where
  string : List ℕ → Item
  int32 short char : ℕ → Item

abbrev pub IsItem : Item → Type 0
IsItem (string bytes) = length bytes < 2 ^ 32
IsItem (int32 i) = i < 2 ^ 32
IsItem (short i) = i < 2 ^ 16
IsItem (char c) = c < 2 ^ 8

pub write_item : List ℕ → Item → List ℕ
write_item m_data (string bytes) = write_string m_data bytes
write_item m_data (int32 i) = write_int32 m_data i false
write_item m_data (short i) = write_short m_data i false
write_item m_data (char c) = write_char m_data c false

as_string : Step Field → Step (Option Item)
as_string none = none
as_string (some (text bytes, r)) = some (some (string bytes), r)
as_string (some (no_length, r)) = some (none, r)
as_string (some (too_long, r)) = some (none, r)
as_string (some (cut_short, r)) = some (none, r)

as_number : (ℕ → Item) → Step (Option ℕ) → Step (Option Item)
as_number c none = none
as_number c (some (none, r)) = some (none, r)
as_number c (some (some i, r)) = some (some (c i), r)

-- Reads a field of the kind of the given one, strings without a limit.
pub read_item : Reader → Item → Step (Option Item)
read_item r (string _) = as_string (read_string r 0)
read_item r (int32 _) = as_number int32 (read_int32 r)
read_item r (short _) = as_number short (read_short r)
read_item r (char _) = as_number char (read_char r)

pub write_all : List ℕ → List Item → List ℕ
write_all m_data [] = m_data
write_all m_data (i ∷ is) = write_all (write_item m_data i) is

-- Stops at the first field that cannot be read.
pub read_all : Reader → List Item → Step (Option (List Item))
read_all r [] = some (some [], r)
read_all r (i ∷ is) = elim (read_item r i) [
  | none ↦ none
  | some (none, r') ↦ some (none, r')
  | some (some x, r') ↦ elim (read_all r' is) [
    | none ↦ none
    | some (none, r'') ↦ some (none, r'')
    | some (some xs, r'') ↦ some (some (x ∷ xs), r'')
  ]
]
