-- ===== src/Net/InetAddress/Tests.antt =====
-- Endpoints of net/InetAddress.cpp at concrete addresses.
use learning_tools.Prelude.{
  ℕ, ◌≡◌, refl, sym, ◌∙◌, arith, true, false, List, [], ◌∷◌, ◌++◌, ◌≤◌, length, replicate, some,
}
use learning_tools.Net.Endian.{
  read_bytes, network_to_host, host_to_network16, host_to_network32, to_network,
}
use learning_tools.Net.Stream.Decimal.{digits}
use learning_tools.Net.Sockets.{SockAddr, is_self_connect, same}
use learning_tools.Net.InetAddress.{init_port, init_ip, to_ip_port, to_port, resolve}
use learning_tools.Net.InetAddress.Dotted.{dotted_inet, dotted_inet-IsInet}
use learning_tools.Net.InetAddress.Endpoints.{to_ip_port_lem, to_ip_port-inj, to_ip_port-init_ip}

-- An array of 32 bytes that nothing has written to.
abbrev stack : List ℕ
stack = replicate 32 205

-- 10.0.0.1, port 80.
abbrev web : SockAddr
web = record { family = 2; port = 0 ∷ 80 ∷ []; addr = 10 ∷ 0 ∷ 0 ∷ 1 ∷ [] }

loopback :
    init_port 80 true ≡ record { family = 2; port = 0 ∷ 80 ∷ []; addr = 127 ∷ 0 ∷ 0 ∷ 1 ∷ [] }
unfolding init_port host_to_network16 host_to_network32 to_network
loopback = refl

self_connect : is_self_connect web (record web { port = 0 ∷ 81 ∷ [] }) ≡ false
unfolding is_self_connect same
self_connect = refl

resolved : resolve (some (10 ∷ 0 ∷ 0 ∷ 1 ∷ [])) (init_port 80 true) ≡ (true, web)
unfolding resolve init_port host_to_network16 host_to_network32 to_network
resolved = refl

web_port : to_port web ≡ 80
unfolding to_port network_to_host read_bytes
web_port = refl

-- The array may hold anything.
to_ip_port-inj_example : (web.addr ≡ web.addr) × (to_port web ≡ to_port web)
to_ip_port-inj_example =
    to_ip_port-inj dotted_inet dotted_inet-IsInet stack (replicate 32 0) web web refl refl refl refl
      refl refl (omega (arith, web_port)) (omega (arith, web_port))
      (to_ip_port_lem dotted_inet dotted_inet-IsInet stack web refl refl refl
          (omega (arith, web_port))
        ∙ sym (
            to_ip_port_lem dotted_inet dotted_inet-IsInet (replicate 32 0) web refl refl refl
              (omega (arith, web_port))))

to_ip_port-init_ip_example :
    let a = init_ip dotted_inet (dotted_inet.ntop (10 ∷ 0 ∷ 0 ∷ 1 ∷ [])) 80 in
    let text = dotted_inet.ntop (10 ∷ 0 ∷ 0 ∷ 1 ∷ []) ++ 58 ∷ digits 80 in
    (a.addr ≡ 10 ∷ 0 ∷ 0 ∷ 1 ∷ [])
    × (to_port a ≡ 80)
    × (to_ip_port dotted_inet stack a ≡ some text)
    × (length text ≤ 21)
to_ip_port-init_ip_example =
    to_ip_port-init_ip dotted_inet dotted_inet-IsInet stack (10 ∷ 0 ∷ 0 ∷ 1 ∷ []) 80 refl refl refl
      (omega arith)
