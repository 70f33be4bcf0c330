-- ===== src/Net/Sockets.antt =====
-- net/Sockets.cpp: the texts and the bytes of addresses. inet_ntop(3) and inet_pton(3) are a parameter;
-- an array on the stack is an argument, with the bytes that it happens to hold.
pub mod Text
use learning_tools.Prelude.{
  ℕ, zero, suc, ◌+◌, ◌-◌, ◌<◌, ◌≤◌, ◌≡◌, Bool, true, false, ◌&&◌, ◌==◌, ltb, leb, if◌then◌else◌,
  List, [], ◌∷◌, ◌++◌, length, take, Option, none, some,
}
use mathlib.Core.Option
use learning_tools.Prelude.Slices.{write_at}
use learning_tools.Prelude.Strings.{lacks}
use learning_tools.Net.Endian.{host_to_network16, network_to_host}
use learning_tools.Net.Stream.Decimal.{digits}

-- `struct sockaddr_in`: the port and the address as they lie in memory, in the order of the network.
pub record SockAddr : Type 0 where
  pub family : ℕ
  pub port : List ℕ
  pub addr : List ℕ

abbrev pub af_inet : ℕ
af_inet = 2

-- `memset(&addr, 0, sizeof addr)`.
abbrev pub zeroed : SockAddr
zeroed = record { family = 0; port = 0 ∷ 0 ∷ []; addr = 0 ∷ 0 ∷ 0 ∷ 0 ∷ [] }

abbrev pub is_bytes : List ℕ → Bool
is_bytes [] = true
is_bytes (b ∷ bs) = ltb b 256 && is_bytes bs

-- The text that inet_ntop(3) makes of four bytes, and the bytes that inet_pton(3) reads from a text.
pub record Inet : Type 0 where
  pub ntop : List ℕ → List ℕ
  pub pton : List ℕ → Option (List ℕ)

-- The text is a C string that has room in INET_ADDRSTRLEN bytes, has no colon, and is read back.
pub record IsInet (inet : Inet) : Type 0 where
  pub short : (a : List ℕ) → length a ≡ 4 → is_bytes a ≡ true → length (inet.ntop a) < 16
  pub closed : (a : List ℕ) → length a ≡ 4 → lacks 0 (inet.ntop a) ≡ true
  pub no_colon : (a : List ℕ) → length a ≡ 4 → lacks 58 (inet.ntop a) ≡ true
  pub back : (a : List ℕ) → length a ≡ 4 → is_bytes a ≡ true → inet.pton (inet.ntop a) ≡ some a

-- `strlen`; `none` is a read behind the array.
unfoldable pub strlen : List ℕ → Option ℕ
strlen [] = none
strlen (c ∷ cs) = let rest = strlen cs in if c == 0 then some 0 else Option.map suc rest

-- `std::string(buf)`.
unfoldable pub c_string : List ℕ → Option (List ℕ)
c_string [] = none
c_string (c ∷ cs) = let rest = c_string cs in if c == 0 then some [] else Option.map (◌∷◌ c) rest

-- `snprintf(buf + i, size, "%s", text)`.
unfoldable pub snprintf_at : List ℕ → ℕ → ℕ → List ℕ → List ℕ
snprintf_at buf i zero text = buf
snprintf_at buf i (suc n) text = write_at buf i (take n text ++ 0 ∷ [])

module _ (inet : Inet) where
  -- The call writes nothing where the array is too short.
  unfoldable pub inet_ntop : List ℕ → ℕ → SockAddr → List ℕ
  inet_ntop buf size a =
      if ltb (length (inet.ntop a.addr)) size
      then write_at buf 0 (inet.ntop a.addr ++ 0 ∷ [])
      else buf

  unfoldable pub to_ip_port : List ℕ → ℕ → SockAddr → Option (List ℕ)
  unfolding inet_ntop strlen snprintf_at
  to_ip_port buf size a =
      let buf' = inet_ntop buf size a in
      let port = network_to_host a.port in
      elim (strlen buf') [
        | none ↦ none
        | some end ↦ some (snprintf_at buf' end (size - end) (58 ∷ digits port))
      ]

  -- `sizeof(struct sockaddr_in)` is 16.
  unfoldable pub to_ip : List ℕ → ℕ → SockAddr → List ℕ
  unfolding inet_ntop
  to_ip buf size a = if leb 16 size then buf else inet_ntop buf size a

  -- A text that is no address leaves the bytes of the address as they were, and an error in the log.
  unfoldable pub from_ip_port : List ℕ → ℕ → SockAddr → SockAddr
  from_ip_port ip port a =
      let a' = record a { family = af_inet; port = host_to_network16 port } in
      elim (inet.pton ip) [ none ↦ a' | some bytes ↦ record a' { addr = bytes } ]

-- Whether two byte strings are the same.
unfoldable pub same : List ℕ → List ℕ → Bool
same [] [] = true
same [] (y ∷ ys) = false
same (x ∷ xs) [] = false
same (x ∷ xs) (y ∷ ys) = x == y && same xs ys

-- `isSelfConnect`, of the addresses that getsockname(2) and getpeername(2) give.
unfoldable pub is_self_connect : SockAddr → SockAddr → Bool
unfolding same
is_self_connect local peer = same local.port peer.port && same local.addr peer.addr
