-- ===== src/Net/Stream/Message/Fields.antt =====
-- ProtocolStream.cpp: one field read back, and by induction a whole packet.
use mathlib.Core.List.{append-nil, append_assoc}
use learning_tools.Prelude.{
  ℕ, zero, suc, ◌+◌, ◌^◌, ◌≤◌, ◌<◌, ◌≡◌, refl, ap, sym, ◌∙◌, arith, List, [], ◌∷◌, ◌++◌, length,
  length-append, drop, some, true, false, ltb, ◌==◌, not, ◌&&◌,
}
use learning_tools.Prelude.Slices.{slice, take-append, drop-append, drop-drop, take_all}
use learning_tools.Net.Endian.{to_network, network_to_host}
use learning_tools.Net.Endian.RoundTrip.{one_byte, length-to_network, network_to_host-to_network}
use learning_tools.Net.Stream.SevenBit.{write_7bit_encoded, read_7bit_encoded32}
use learning_tools.Net.Stream.SevenBit.RoundTrip.{
  IsCode, read_7bit_encoded32-write_7bit_encoded, write_7bit_encoded-IsCode,
}
use learning_tools.Net.Stream.Reader.{
  Reader, text, copy_head, read_length_without_offset, read_string, read_c_string, read_int32,
  read_short, read_char,
}
use learning_tools.Net.Stream.Writer.{write_string, write_int32, write_short, write_char}
use learning_tools.Net.Stream.Message.{
  Item, string, int32, short, char, IsItem, write_item, as_string, as_number, read_item,
}

copy_head-code :
    (left : ℕ) (code rest : List ℕ)
    → IsCode code
    → length code ≤ left
    → copy_head left (code ++ rest) ≡ some code
unfolding copy_head
copy_head-code left [] rest h few = absurd h
copy_head-code zero (c ∷ cs) rest h few = absurd (omega arith)
copy_head-code (suc left) (c ∷ []) rest h few =
    let last : ltb c 128 ≡ true = ground arith in rw last
copy_head-code (suc left) (c ∷ d ∷ cs) rest (lo, hi, h) few =
    let more : ltb c 128 ≡ false = ground arith in
    rw (more, copy_head-code left (d ∷ cs) rest h (omega arith))

-- The cursor of `r` stands in front of `front`, inside the packet, and `rest` follows in memory.
pub record Ahead (r : Reader) (front rest : List ℕ) : Type 0 where
  pub memory : drop r.cur r.bytes ≡ front ++ rest
  pub inside : r.cur + length front ≤ r.len
  pub allocated : r.len ≤ length r.bytes

-- `r` with the cursor moved on.
abbrev pub moved : Reader → ℕ → Reader
moved r n = record r { cur = r.cur + n }

module _ {r : Reader} {front rest : List ℕ} (a : Ahead r front rest) where
  front-slice : slice r.cur (length front) r.bytes ≡ front
  unfolding slice
  front-slice = rw a.memory (take-append (length front) front rest refl)

  pub Ahead-moved :
      (next behind : List ℕ)
      → rest ≡ next ++ behind
      → r.cur + length front + length next ≤ r.len
      → Ahead (moved r (length front)) next behind
  Ahead-moved next behind e h = record {
    memory =
        sym (drop-drop r.cur (length front) r.bytes)
        ∙ ap (drop (length front)) a.memory
        ∙ drop-append (length front) front rest refl
        ∙ e;
    inside = h;
    allocated = a.allocated;
  }

read_head :
    {r : Reader} {rest : List ℕ} (n : ℕ)
    → n < 2 ^ 32
    → Ahead r (write_7bit_encoded n) rest
    → read_length_without_offset r
      ≡ some (some (record { headlen = length (write_7bit_encoded n); outlen = n }))
unfolding read_length_without_offset
read_head {r} {rest} n h a =
    let code = write_7bit_encoded n in
    let (is_code, _, few) = write_7bit_encoded-IsCode n (omega arith) in
    let head : copy_head 5 (drop r.cur r.bytes) ≡ some code =
      ap (copy_head 5) a.memory ∙ copy_head-code 5 code rest is_code (few h) in
    let value : read_7bit_encoded32 code ≡ some n =
      ap read_7bit_encoded32 (sym (append-nil code))
      ∙ (read_7bit_encoded32-write_7bit_encoded n [] h) in
    let fits : ltb r.len (r.cur + length code) ≡ false = ground (arith, a.inside) in
    rw (head, read_length_without_offset, fits, value)

-- A string in front is read by `ReadString`, with a limit that it keeps or with none, and by `ReadCString`.
module _ {r : Reader} {rest : List ℕ} (bytes : List ℕ) (h : length bytes < 2 ^ 32)
    (a : Ahead r (write_7bit_encoded (length bytes) ++ bytes) rest) where
  head-Ahead : Ahead r (write_7bit_encoded (length bytes)) (bytes ++ rest)
  head-Ahead =
      let code = write_7bit_encoded (length bytes) in
      record {
        memory = a.memory ∙ append_assoc code bytes rest;
        inside = omega (arith, a.inside, length-append code bytes);
        allocated = a.allocated;
      }

  text-Ahead : Ahead (moved r (length (write_7bit_encoded (length bytes)))) bytes rest
  text-Ahead =
      let code = write_7bit_encoded (length bytes) in
      Ahead-moved head-Ahead bytes rest refl (omega (arith, a.inside, length-append code bytes))

  after_text : Reader
  after_text = moved r (length (write_7bit_encoded (length bytes) ++ bytes))

  fits : ltb r.len (r.cur + length (write_7bit_encoded (length bytes)) + length bytes) ≡ false
  fits = ground (arith, text-Ahead.inside)

  held :
      ltb (length r.bytes) (r.cur + length (write_7bit_encoded (length bytes)) + length bytes)
      ≡ false
  held = ground (arith, text-Ahead.inside, a.allocated)

  end :
      r.cur + length (write_7bit_encoded (length bytes)) + length bytes
      ≡ r.cur + length (write_7bit_encoded (length bytes) ++ bytes)
  end = omega (arith, length-append (write_7bit_encoded (length bytes)) bytes)

  pub read_string_lem :
      (maxlen : ℕ)
      → (not (maxlen == 0) && ltb maxlen (length bytes)) ≡ false
      → read_string r maxlen
        ≡ some (text bytes, moved r (length (write_7bit_encoded (length bytes) ++ bytes)))
  unfolding read_string
  read_string_lem maxlen limit =
      let found = read_head (length bytes) h head-Ahead in
      rw (found, read_string, limit, fits, held, front-slice text-Ahead, end)

  pub read_c_string_lem :
      (strlen : ℕ)
      → length bytes ≤ strlen
      → read_c_string r strlen
        ≡ some (text bytes, moved r (length (write_7bit_encoded (length bytes) ++ bytes)))
  unfolding read_c_string
  read_c_string_lem strlen limit =
      let found = read_head (length bytes) h head-Ahead in
      let room : ltb strlen (length bytes) ≡ false = ground arith in
      rw (found, read_c_string, room, fits, held, front-slice text-Ahead, end)

-- The bytes of a field.
unfoldable pub encoded : Item → List ℕ
encoded (string bytes) = write_7bit_encoded (length bytes) ++ bytes
encoded (int32 i) = to_network 4 i
encoded (short i) = to_network 2 i
encoded (char c) = c ∷ []

pub write_item-encoded : (m_data : List ℕ) (i : Item) → write_item m_data i ≡ m_data ++ encoded i
unfolding write_item encoded write_string write_int32 write_short write_char
write_item-encoded m_data (string bytes) =
    rw (take_all (length bytes) bytes (omega arith))
      (append_assoc m_data (write_7bit_encoded (length bytes)) bytes)
write_item-encoded m_data (int32 i) = refl
write_item-encoded m_data (short i) = refl
write_item-encoded m_data (char c) = refl

module _ {r : Reader} {front rest : List ℕ} (a : Ahead r front rest) where
  number_fits : ltb r.len (r.cur + length front) ≡ false
  number_fits = ground (arith, a.inside)

  number_held : ltb (length r.bytes) (r.cur + length front) ≡ false
  number_held = ground (arith, a.inside, a.allocated)

-- An integer in front is read by the call of its width.
pub read_item_lem :
    {r : Reader} {rest : List ℕ} (i : Item)
    → IsItem i
    → Ahead r (encoded i) rest
    → read_item r i ≡ some (some i, moved r (length (encoded i)))
unfolding read_item encoded as_string as_number read_int32 read_short read_char
read_item_lem (string bytes) h a = rw (read_string_lem bytes h a 0 (ground arith))
read_item_lem {r} (int32 i) h a =
    let width = length-to_network 4 i in
    let value = ap network_to_host (front-slice a) ∙ network_to_host-to_network 4 i h in
    ground (arith, width, value, number_fits a, number_held a)
read_item_lem {r} (short i) h a =
    let width = length-to_network 2 i in
    let value = ap network_to_host (front-slice a) ∙ network_to_host-to_network 2 i h in
    ground (arith, width, value, number_fits a, number_held a)
read_item_lem {r} (char c) h a =
    let value =
      ap network_to_host (front-slice a ∙ one_byte c h) ∙ network_to_host-to_network 1 c h in
    ground (arith, value, number_fits a, number_held a)
