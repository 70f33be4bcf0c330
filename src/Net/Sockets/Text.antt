-- ===== src/Net/Sockets/Text.antt =====
-- net/Sockets.cpp: what the array of toIpPort holds at the end.
use learning_tools.Prelude.{
  ℕ, suc, ◌+◌, ◌-◌, ◌<◌, ◌≤◌, ◌≡◌, refl, true, ltb, arith, List, [], ◌∷◌, ◌++◌, length, some,
}
use mathlib.Core.Option
use learning_tools.Prelude.Slices.{write_at, length-write_at, take_all}
use learning_tools.Prelude.Strings.{lacks}
use learning_tools.Net.Endian.{network_to_host}
use learning_tools.Net.Stream.Decimal.{digits}
use learning_tools.Net.Stream.Decimal.Length.{length-digits_port}
use learning_tools.Net.Stream.Decimal.Chars.{digits-lacks}
use learning_tools.Net.Sockets.{
  SockAddr, Inet, IsInet, is_bytes, strlen, c_string, snprintf_at, inet_ntop, to_ip_port,
}

strlen-write_at :
    (buf text : List ℕ)
    → lacks 0 text ≡ true
    → length text < length buf
    → strlen (write_at buf 0 (text ++ 0 ∷ [])) ≡ some (length text)
unfolding strlen write_at
strlen-write_at [] text h g = absurd (omega (arith, g))
strlen-write_at (b ∷ buf) [] h g = refl
strlen-write_at (b ∷ buf) (c ∷ text) h g =
    let ih = strlen-write_at buf text in ground (arith, ih, h, g)

c_string-write_at_start :
    (buf text : List ℕ)
    → lacks 0 text ≡ true
    → length text < length buf
    → c_string (write_at buf 0 (text ++ 0 ∷ [])) ≡ some text
unfolding c_string write_at
c_string-write_at_start [] text h g = absurd (omega (arith, g))
c_string-write_at_start (b ∷ buf) [] h g = refl
c_string-write_at_start (b ∷ buf) (c ∷ text) h g =
    let ih = c_string-write_at_start buf text in ground (arith, ih, h, g)

-- A text that is written over the terminator of another one.
c_string-write_at :
    (buf front text : List ℕ)
    → lacks 0 front ≡ true
    → lacks 0 text ≡ true
    → length front + length text < length buf
    → c_string (write_at (write_at buf 0 (front ++ 0 ∷ [])) (length front) (text ++ 0 ∷ []))
      ≡ some (front ++ text)
unfolding c_string write_at
c_string-write_at [] front text h k g = absurd (omega (arith, g))
c_string-write_at (b ∷ buf) [] text h k g =
    c_string-write_at_start (0 ∷ write_at buf 0 []) text k
      (omega (arith, g, length-write_at buf 0 []))
c_string-write_at (b ∷ buf) (c ∷ front) text h k g =
    let ih = c_string-write_at buf front text in ground (arith, ih, h, k, g)

module _ (inet : Inet) (law : IsInet inet) where
  pub to_ip_port-c_string :
      (buf : List ℕ) (a : SockAddr)
      → length buf ≡ 32
      → length a.addr ≡ 4
      → is_bytes a.addr ≡ true
      → network_to_host a.port < 65536
      → Option.bind (to_ip_port inet buf 32 a) c_string
        ≡ some (inet.ntop a.addr ++ 58 ∷ digits (network_to_host a.port))
  unfolding to_ip_port inet_ntop snprintf_at Option.bind
  to_ip_port-c_string buf a h four bytes small =
      let port = network_to_host a.port in
      let text = inet.ntop a.addr in
      let short = law.short a.addr four bytes in
      let closed = law.closed a.addr four in
      let few = length-digits_port port small in
      let fits : ltb (length text) 32 ≡ true = ground (arith, short) in
      let end = strlen-write_at buf text closed (omega (arith, short, h)) in
      let written : length (58 ∷ digits port) ≤ 31 - length text = omega (arith, short, few) in
      let room : 32 - length text ≡ suc (31 - length text) = omega (arith, short) in
      let whole : inet_ntop inet buf 32 a ≡ write_at buf 0 (text ++ 0 ∷ []) =
        rw (inet_ntop, fits) in
      rw (to_ip_port, whole, end, room, snprintf_at, take_all _ _ written, whole)
        (c_string-write_at buf text (58 ∷ digits port) closed (digits-lacks 0 port refl)
          (omega (arith, short, few, h)))
