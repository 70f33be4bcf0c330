-- ===== src/Net/Stream/Tests.antt =====
-- Runs of the stream reader and writer at concrete inputs, and their theorems at inputs that meet the
-- hypotheses.
use learning_tools.Prelude.{
  ℕ, ◌/◌, ◌%◌, ◌^◌, ◌<◌, ◌≡◌, refl, arith, List, [], ◌∷◌, ◌++◌, length, some, true,
}
use learning_tools.Prelude.Slices.{slice}
use learning_tools.Net.Endian.{network_to_host}
use learning_tools.Net.Stream.Checksum.{checksum, checksum_verifies}
use learning_tools.Net.Stream.Reader.{
  Reader, is_end, read_string, read_int32, read_length_without_offset,
}
use learning_tools.Net.Stream.Reader
use learning_tools.Net.Stream.Message.{Item, string, int32, short, char, read_all}
use learning_tools.Net.Stream.Message.Packet.{packet, read_all-packet}

abbrev header : List ℕ
header = 1 ∷ 2 ∷ 3 ∷ 4 ∷ 5 ∷ 6 ∷ []

abbrev login : List Item
login = int32 1001 ∷ string (97 ∷ 108 ∷ []) ∷ short 7 ∷ char 255 ∷ []

read_all-packet_example :
    (r : Reader) × (read_all
        (Reader.init (packet header login ++ 0 ∷ []) (length (packet header login)))
        login
      ≡ some (some login, r))
    × (is_end r ≡ true)
    × (network_to_host (slice 0 4 (packet header login)) ≡ length (packet header login) % 2 ^ 32)
read_all-packet_example =
    read_all-packet header (0 ∷ []) login refl
      (omega arith, (omega arith, (omega arith, (omega arith, tt))))

abbrev words : List ℕ
words = 255 ∷ 255 ∷ 18 ∷ 52 ∷ []

checksum_verifies_example :
    (checksum words < 2 ^ 16)
    × (checksum (words ++ (checksum words % 256 ∷ checksum words / 256 ∷ [])) ≡ 0)
checksum_verifies_example =
    checksum_verifies words tt (omega arith, (omega arith, (omega arith, (omega arith, tt))))
      (omega arith)
