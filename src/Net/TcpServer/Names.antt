-- ===== src/Net/TcpServer/Names.antt =====
-- net/TcpServer.cpp: connections have names of their own.
use mathlib.Core.List.{append_assoc}
use learning_tools.Prelude.{
  ℕ, ◌<◌, ◌≤◌, ◌≡◌, refl, sym, ap, ◌∙◌, arith, List, [], ◌∷◌, ◌++◌, length, length-append, take,
  drop,
}
use learning_tools.Prelude.Slices.{take_all, drop-append}
use learning_tools.Net.Stream.Decimal.{digits}
use learning_tools.Net.Stream.Decimal.Length.{length-digits_small}
use learning_tools.Net.Stream.Decimal.Value.{digits_inj}
use learning_tools.Net.TcpServer.{Server, conn_name}

suffix : Server → ℕ → List ℕ
suffix s id = 58 ∷ s.hostport ++ 35 ∷ digits id

length-suffix :
    (s : Server) (id : ℕ) → length s.hostport ≤ 21 → id < 100000000 → length (suffix s id) ≤ 31
unfolding suffix
length-suffix s id h g =
    let few = length-digits_small id g in
    let both = length-append (58 ∷ s.hostport) (35 ∷ digits id) in omega (arith, h, few, both)

append-inj : (xs ys zs : List ℕ) → xs ++ ys ≡ xs ++ zs → ys ≡ zs
append-inj xs ys zs e =
    sym (drop-append (length xs) xs ys refl)
    ∙ ap (drop (length xs)) e
    ∙ drop-append (length xs) xs zs refl

full :
    (s : Server) (id : ℕ)
    → length s.hostport ≤ 21
    → id < 100000000
    → take 31 (suffix s id) ≡ suffix s id
full s id h g = take_all 31 (suffix s id) (length-suffix s id h g)

whole : (s : Server) (id : ℕ) → (58 ∷ s.hostport ++ 35 ∷ []) ++ digits id ≡ suffix s id
unfolding suffix
whole s id = append_assoc (58 ∷ s.hostport) (35 ∷ []) (digits id)

-- An address and a port are at most 21 characters, so that eight digits fit.
pub conn_name-inj :
    (s : Server) (i j : ℕ)
    → length s.hostport ≤ 21
    → i < 100000000
    → j < 100000000
    → conn_name s i ≡ conn_name s j
    → i ≡ j
unfolding conn_name suffix
conn_name-inj s i j h hi hj e =
    let cut = append-inj s.name (take 31 (suffix s i)) (take 31 (suffix s j)) e in
    let same = sym (full s i h hi) ∙ cut ∙ full s j h hj in
    let digits_same =
      append-inj (58 ∷ s.hostport ++ 35 ∷ []) (digits i) (digits j)
        (whole s i ∙ same ∙ sym (whole s j)) in
    digits_inj i j digits_same
