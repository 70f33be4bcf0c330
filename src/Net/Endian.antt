-- ===== src/Net/Endian.antt =====
-- mudou/net/Endian.h: integers as the bytes that stand for them on the network, highest first.
-- The `htobe`/`be..toh` calls of the C library turn a host integer into the integer whose memory
-- holds these bytes, and `memcpy` moves that memory; so the two steps together are modelled, as the
-- list of the bytes. An integer of `w` bytes is its bit pattern, a number below 256 ^ w.
pub mod RoundTrip
use Prim.Native.Nat.{ℕ, zero, suc, ◌+◌, ◌*◌, ◌/◌, ◌%◌}
use mathlib.Core.List.{List, [], ◌∷◌, ◌++◌}

-- The lowest `w` bytes of `x`, the highest of them first.
unfoldable pub to_network : ℕ → ℕ → List ℕ
to_network zero x = []
to_network (suc w) x = to_network w (x / 256) ++ (x % 256 ∷ [])

-- The number that the bytes stand for, read behind the bytes of `acc`.
unfoldable pub read_bytes : ℕ → List ℕ → ℕ
read_bytes acc [] = acc
read_bytes acc (b ∷ bs) = read_bytes (acc * 256 + b) bs

unfoldable pub host_to_network64 : ℕ → List ℕ
host_to_network64 = to_network 8

unfoldable pub host_to_network32 : ℕ → List ℕ
host_to_network32 = to_network 4

unfoldable pub host_to_network16 : ℕ → List ℕ
host_to_network16 = to_network 2

unfoldable pub network_to_host : List ℕ → ℕ
network_to_host = read_bytes 0
