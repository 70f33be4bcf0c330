-- ===== src/Net/InetAddress.antt =====
-- net/InetAddress.h and InetAddress.cpp: an address and a port, over net/Sockets.cpp. The answer of
-- gethostbyname_r(3) is an argument.
pub mod Endpoints
pub mod Dotted
mod Tests
use mathlib.Core.Option
use learning_tools.Prelude.{
  ℕ, Bool, true, false, ◌==◌, if◌then◌else◌, List, [], ◌∷◌, Option, none, some,
}
use learning_tools.Net.Endian.{host_to_network16, host_to_network32, network_to_host}
use learning_tools.Net.Sockets.{SockAddr, af_inet, zeroed, Inet, c_string, from_ip_port}
use learning_tools.Net.Sockets

abbrev pub inaddr_any : ℕ
inaddr_any = 0

-- 127.0.0.1.
abbrev pub inaddr_loopback : ℕ
inaddr_loopback = 2130706433

unfoldable pub init_port : ℕ → Bool → SockAddr
unfolding host_to_network16 host_to_network32
init_port port loopback_only =
    let ip = if loopback_only then inaddr_loopback else inaddr_any in
    record { family = af_inet; addr = host_to_network32 ip; port = host_to_network16 port }

-- `ip.c_str()`: a string ends at its first zero byte for the functions of C.
unfoldable pub c_str : List ℕ → List ℕ
c_str [] = []
c_str (c ∷ cs) = if c == 0 then [] else c ∷ c_str cs

module _ (inet : Inet) where
  unfoldable pub init_ip : List ℕ → ℕ → SockAddr
  unfolding from_ip_port c_str
  init_ip ip port = from_ip_port inet (c_str ip) port zeroed

  -- `buf` holds the 32 bytes of the array before the call. `none` is a read behind it.
  unfoldable pub to_ip_port : List ℕ → SockAddr → Option (List ℕ)
  unfolding Sockets.to_ip_port c_string Option.bind
  to_ip_port buf a = Option.bind (Sockets.to_ip_port inet buf 32 a) c_string

  unfoldable pub to_ip : List ℕ → SockAddr → Option (List ℕ)
  unfolding Sockets.to_ip c_string
  to_ip buf a = c_string (Sockets.to_ip inet buf 32 a)

unfoldable pub to_port : SockAddr → ℕ
to_port a = network_to_host a.port

-- `h_addr`, if the host was found.
unfoldable pub resolve : Option (List ℕ) → SockAddr → Bool × SockAddr
resolve none out = (false, out)
resolve (some h_addr) out = (true, record out { addr = h_addr })
