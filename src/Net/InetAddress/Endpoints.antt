-- ===== src/Net/InetAddress/Endpoints.antt =====
-- net/InetAddress.cpp: the text of an endpoint tells its address and its port.
use mathlib.Core.Option.{some-injective}
use learning_tools.Prelude.{
  ℕ, ◌<◌, ◌≤◌, ◌≡◌, refl, sym, ap, ap₂, ◌∙◌, true, arith, List, [], ◌∷◌, ◌++◌, length,
  length-append, some,
}
use learning_tools.Prelude.Strings.{lacks, front, back, front-append, back-append}
use learning_tools.Net.Endian.{host_to_network16}
use learning_tools.Net.Endian.RoundTrip.{network_to_host-to_network}
use learning_tools.Net.Stream.Decimal.{digits}
use learning_tools.Net.Stream.Decimal.Length.{length-digits_port}
use learning_tools.Net.Stream.Decimal.Value.{digits_inj}
use learning_tools.Net.Sockets.{SockAddr, Inet, IsInet, is_bytes, from_ip_port}
use learning_tools.Net.Sockets.Text.{to_ip_port-c_string}
use learning_tools.Net.InetAddress.{c_str, init_ip, to_ip_port, to_port}

c_str-closed : (xs : List ℕ) → lacks 0 xs ≡ true → c_str xs ≡ xs
unfolding c_str
c_str-closed [] h = refl
c_str-closed (x ∷ xs) h = let ih = c_str-closed xs in ground (arith, ih, h)

module _ (inet : Inet) (law : IsInet inet) where
  pub to_ip_port_lem :
      (buf : List ℕ) (a : SockAddr)
      → length buf ≡ 32
      → length a.addr ≡ 4
      → is_bytes a.addr ≡ true
      → to_port a < 65536
      → to_ip_port inet buf a ≡ some (inet.ntop a.addr ++ 58 ∷ digits (to_port a))
  unfolding to_ip_port to_port
  to_ip_port_lem buf a h four bytes small = to_ip_port-c_string inet law buf a h four bytes small

  pub length-text :
      (addr : List ℕ) (port : ℕ)
      → length addr ≡ 4
      → is_bytes addr ≡ true
      → port < 65536
      → length (inet.ntop addr ++ 58 ∷ digits port) ≤ 21
  length-text addr port four bytes small =
      let both = length-append (inet.ntop addr) (58 ∷ digits port) in
      let short = law.short addr four bytes in
      let few = length-digits_port port small in omega (arith, both, short, few)

  -- For any two endpoints, of an address of four bytes and a port below 2^16, toIpPort gives the same text only if
  -- the two have the same address and the same port, whatever its array held before each call.
  pub to_ip_port-inj :
      (buf buf' : List ℕ) (a b : SockAddr)
      → length buf ≡ 32
      → length buf' ≡ 32
      → length a.addr ≡ 4
      → length b.addr ≡ 4
      → is_bytes a.addr ≡ true
      → is_bytes b.addr ≡ true
      → to_port a < 65536
      → to_port b < 65536
      → to_ip_port inet buf a ≡ to_ip_port inet buf' b
      → (a.addr ≡ b.addr) × (to_port a ≡ to_port b)
  to_ip_port-inj buf buf' a b h h' four four' bytes bytes' small small' e =
      let text = to_ip_port_lem buf a h four bytes small in
      let text' = to_ip_port_lem buf' b h' four' bytes' small' in
      let one = some-injective _ _ (sym text ∙ e ∙ text') in
      let mine = law.no_colon a.addr four in
      let other = law.no_colon b.addr four' in
      let addresses =
        sym (front-append 58 (inet.ntop a.addr) (digits (to_port a)) mine)
        ∙ ap (front 58) one
        ∙ front-append 58 (inet.ntop b.addr) (digits (to_port b)) other in
      let ports =
        sym (back-append 58 (inet.ntop a.addr) (digits (to_port a)) mine)
        ∙ ap (back 58) one
        ∙ back-append 58 (inet.ntop b.addr) (digits (to_port b)) other in
      let read =
        sym (law.back a.addr four bytes) ∙ ap inet.pton addresses ∙ law.back b.addr four' bytes' in
      (some-injective _ _ read, digits_inj (to_port a) (to_port b) ports)

  -- An InetAddress that is made from the text of an address of four bytes and a port below 2^16 has these bytes and
  -- this port, and its toIpPort is the text, a colon and the port in decimal, 21 characters at most, whatever the
  -- array held before.
  pub to_ip_port-init_ip :
      (buf addr : List ℕ) (port : ℕ)
      → length buf ≡ 32
      → length addr ≡ 4
      → is_bytes addr ≡ true
      → port < 65536
      → let a = init_ip inet (inet.ntop addr) port in
        let text = inet.ntop addr ++ 58 ∷ digits port in
        (a.addr ≡ addr)
        × (to_port a ≡ port)
        × (to_ip_port inet buf a ≡ some text)
        × (length text ≤ 21)
  unfolding init_ip from_ip_port host_to_network16 to_port
  to_ip_port-init_ip buf addr port h four bytes small =
      let a = init_ip inet (inet.ntop addr) port in
      let whole = c_str-closed (inet.ntop addr) (law.closed addr four) in
      let known = law.back addr four bytes in
      let addr_same : a.addr ≡ addr = rw (init_ip, whole, from_ip_port, known) in
      let port_same : to_port a ≡ port =
        rw (init_ip, whole, from_ip_port, known) (network_to_host-to_network 2 port small) in
      let text =
        to_ip_port_lem buf a h (ap length addr_same ∙ four) (ap is_bytes addr_same ∙ bytes)
          (omega (arith, port_same, small)) in
      (
        addr_same,
        port_same,
        text
            ∙ ap₂ (λ (t : List ℕ) (n : ℕ). some (inet.ntop t ++ 58 ∷ digits n)) addr_same port_same,
        length-text addr port four bytes small,
      )
