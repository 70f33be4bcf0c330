-- ===== src/Net/Endian/RoundTrip.antt =====
-- Endian.h: the network form of an integer has its width, and gives the integer back.
use learning_tools.Prelude.{
  ℕ, zero, suc, ◌+◌, ◌*◌, ◌/◌, ◌%◌, ◌^◌, ◌<◌, ◌≡◌, refl, ap, ◌∙◌, List, [], ◌∷◌, ◌++◌, length,
  length-append, arith,
}
use native.Mathlib.Nat.{pow-suc}
use learning_tools.Net.Endian.{to_network, read_bytes, network_to_host}

abbrev pub IsByte : ℕ → Type 0
IsByte b = b < 256

pub length-to_network : (w x : ℕ) → length (to_network w x) ≡ w
unfolding to_network
length-to_network zero x = refl
length-to_network (suc w) x =
    omega
      (arith, length-append (to_network w (x / 256)) (x % 256 ∷ []), length-to_network w (x / 256))

pub read_bytes-append :
    (acc : ℕ) (xs ys : List ℕ) → read_bytes acc (xs ++ ys) ≡ read_bytes (read_bytes acc xs) ys
unfolding read_bytes
read_bytes-append acc [] ys = refl
read_bytes-append acc (x ∷ xs) ys = read_bytes-append (acc * 256 + x) xs ys

read_bytes-to_network :
    (w acc x : ℕ) → x < 256 ^ w → read_bytes acc (to_network w x) ≡ acc * 256 ^ w + x
unfolding to_network read_bytes
read_bytes-to_network zero acc x h = omega arith
read_bytes-to_network (suc w) acc x h =
    let high : x / 256 < 256 ^ w = omega (arith, pow-suc 256 w) in
    read_bytes-append acc (to_network w (x / 256)) (x % 256 ∷ [])
    ∙ omega
        (arith, ap (λ (t : ℕ). acc * t) (pow-suc 256 w), read_bytes-to_network w acc (x / 256) high)

pub network_to_host-to_network : (w x : ℕ) → x < 256 ^ w → network_to_host (to_network w x) ≡ x
unfolding network_to_host
network_to_host-to_network w x h = omega (arith, read_bytes-to_network w 0 x h)

-- One byte is its own network form.
pub one_byte : (x : ℕ) → x < 256 → x ∷ [] ≡ to_network 1 x
unfolding to_network
one_byte x h = ap (λ y. y ∷ []) (omega arith)
