-- ===== src/Net/Stream/Message/Packet.antt =====
-- ProtocolStream.cpp: a packet that the writer made, read by the reader.
use mathlib.Core.List.{append-nil, append_assoc}
use native.Mathlib.Nat.{add-zero}
use learning_tools.Prelude.{
  ℕ, ◌+◌, ◌%◌, ◌^◌, ◌≡◌, refl, ap, sym, ◌∙◌, arith, List, [], ◌∷◌, ◌++◌, length, length-append,
  drop, some, true,
}
use learning_tools.Prelude.Slices.{
  slice, write_at, drop-append, drop-append_of_le, length-write_at, slice-write_at_self,
  drop-write_at,
}
use learning_tools.Net.Endian.{to_network, network_to_host}
use learning_tools.Net.Endian.RoundTrip.{length-to_network, network_to_host-to_network}
use learning_tools.Net.Stream.Reader.{Reader, is_end, packlen_len, checksum_len}
use learning_tools.Net.Stream.Reader
use learning_tools.Net.Stream.Writer
use learning_tools.Net.Stream.Writer.{flush}
use learning_tools.Net.Stream.Message.{Item, IsItem, write_item, write_all, read_all}
use learning_tools.Net.Stream.Message.Fields.{
  Ahead, Ahead-moved, moved, encoded, read_item_lem, write_item-encoded,
}

abbrev pub AreItems : List Item → Type 0
AreItems [] = Unit {0}
AreItems (i ∷ is) = IsItem i × AreItems is

unfoldable pub encoded_all : List Item → List ℕ
encoded_all [] = []
encoded_all (i ∷ is) = encoded i ++ encoded_all is

write_all-encoded_all :
    (m_data : List ℕ) (is : List Item) → write_all m_data is ≡ m_data ++ encoded_all is
unfolding write_all encoded_all
write_all-encoded_all m_data [] = sym (append-nil m_data)
write_all-encoded_all m_data (i ∷ is) =
    write_all-encoded_all (write_item m_data i) is
    ∙ rw (write_item-encoded m_data i) (append_assoc m_data (encoded i) (encoded_all is))

read_all-encoded_all :
    (is : List Item) {r : Reader} {rest : List ℕ}
    → AreItems is
    → Ahead r (encoded_all is) rest
    → read_all r is ≡ some (some is, moved r (length (encoded_all is)))
unfolding read_all encoded_all
read_all-encoded_all [] {r} h a =
    ap (λ n. some (some [], record r { cur = n })) (sym (add-zero r.cur))
read_all-encoded_all (i ∷ is) {r} {rest} (hi, his) a =
    let total = length-append (encoded i) (encoded_all is) in
    let first : Ahead r (encoded i) (encoded_all is ++ rest) = record {
      memory = a.memory ∙ append_assoc (encoded i) (encoded_all is) rest;
      inside = omega (arith, a.inside, total);
      allocated = a.allocated;
    } in
    let others = Ahead-moved first (encoded_all is) rest refl (omega (arith, a.inside, total)) in
    let end : r.cur + length (encoded i) + length (encoded_all is)
        ≡ r.cur + length (encoded i ++ encoded_all is) =
      omega (arith, total) in
    rw (read_item_lem i hi first, read_all, read_all-encoded_all is his others, end)

-- The packet: the six bytes of the header, the fields, and the length put into the first four bytes.
pub packet : List ℕ → List Item → List ℕ
packet header is = flush (write_all (Writer.init header) is)

-- A packet of any strings of less than 2^32 bytes, non-null int32 values, shorts and chars, in any order, that was written
-- behind a header of six bytes and flushed, and is read from memory with anything behind it, gives those
-- fields back, and then the reader is at its end. The first four bytes are the length of the
-- packet, modulo 2^32. Fields of other kinds (int64, double, null) are not among them.
pub read_all-packet :
    (header slack : List ℕ) (is : List Item)
    → length header ≡ packlen_len + checksum_len
    → AreItems is
    → let m = packet header is in
      (r : Reader) × (read_all (Reader.init (m ++ slack) (length m)) is ≡ some (some is, r))
      × (is_end r ≡ true)
      × (network_to_host (slice 0 4 m) ≡ length m % 2 ^ 32)
unfolding packet flush Writer.init Reader.init is_end
read_all-packet header slack is six h =
    let body = encoded_all is in
    let whole = header ++ body in
    let written = write_all-encoded_all header is in
    let stamp = to_network 4 (length whole % 2 ^ 32) in
    let m = write_at whole 0 stamp in
    let four = length-to_network 4 (length whole % 2 ^ 32) in
    let total = length-append header body in
    let len = length-write_at whole 0 stamp in
    let behind : drop 6 m ≡ body =
      drop-write_at whole stamp 0 6 (omega (arith, four)) ∙ drop-append 6 header body (sym six) in
    let memory : drop 6 (m ++ slack) ≡ body ++ slack =
      drop-append_of_le 6 m slack (omega (arith, len, total)) ∙ ap (λ c. c ++ slack) behind in
    let ahead : Ahead (Reader.init (m ++ slack) (length m)) body slack = record {
      memory = memory;
      inside = omega (arith, len, total);
      allocated = omega (arith, length-append m slack);
    } in
    let end : 6 + length body ≡ length m = omega (arith, len, total) in
    let stamped : slice 0 4 m ≡ stamp =
      ap (λ n. slice 0 n m) (sym four)
      ∙ slice-write_at_self whole stamp 0 (omega (arith, four, total)) in
    rw written (
      moved (Reader.init (m ++ slack) (length m)) (length body),
      read_all-encoded_all is h ahead,
      ground (arith, end),
      ap network_to_host stamped
          ∙ network_to_host-to_network 4 (length whole % 2 ^ 32) (omega arith)
          ∙ ap (λ n. n % 2 ^ 32) (sym len),
    )
