-- ===== src/Net/InetAddress/Dotted.antt =====
-- Addresses in dotted decimal, as inet_ntop(3) and inet_pton(3) give and read them.
use learning_tools.Prelude.{
  ℕ, suc, ◌+◌, ◌-◌, ◌*◌, ◌<◌, ◌≡◌, refl, ap, ap₂, ◌∙◌, true, false, ◌==◌, ◌&&◌, leb, if◌then◌else◌,
  arith, List, [], ◌∷◌, ◌++◌, length, length-append, Option, none, some,
}
use learning_tools.Prelude.Strings.{lacks, lacks-append}
use learning_tools.Net.Stream.Decimal.{digits}
use learning_tools.Net.Stream.Decimal.Length.{length-digits_byte}
use learning_tools.Net.Stream.Decimal.Value.{value, value-digits}
use learning_tools.Net.Stream.Decimal.Chars.{digits-lacks}
use learning_tools.Net.Sockets.{Inet, IsInet, is_bytes}

unfoldable pub dotted : List ℕ → List ℕ
dotted [] = []
dotted (b ∷ []) = digits b
dotted (b ∷ c ∷ bs) = digits b ++ 46 ∷ dotted (c ∷ bs)

unfoldable pub read_numbers : ℕ → List ℕ → List ℕ
read_numbers acc [] = acc ∷ []
read_numbers acc (c ∷ cs) =
    let rest = read_numbers 0 cs in
    let more = read_numbers (acc * 10 + (c - 48)) cs in if c == 46 then acc ∷ rest else more

unfoldable pub parse : List ℕ → Option (List ℕ)
parse text =
    if length (read_numbers 0 text) == 4 && is_bytes (read_numbers 0 text)
    then some (read_numbers 0 text)
    else none

read_numbers-last :
    (acc : ℕ) (xs : List ℕ) → lacks 46 xs ≡ true → read_numbers acc xs ≡ value acc xs ∷ []
unfolding read_numbers value
read_numbers-last acc [] h = refl
read_numbers-last acc (c ∷ cs) h =
    let ih = read_numbers-last (acc * 10 + (c - 48)) cs in ground (arith, ih, h)

read_numbers-append :
    (acc : ℕ) (xs ys : List ℕ)
    → lacks 46 xs ≡ true
    → read_numbers acc (xs ++ 46 ∷ ys) ≡ value acc xs ∷ read_numbers 0 ys
unfolding read_numbers value
read_numbers-append acc [] ys h = refl
read_numbers-append acc (c ∷ cs) ys h =
    let ih = read_numbers-append (acc * 10 + (c - 48)) cs ys in ground (arith, ih, h)

read_numbers-dotted : (b : ℕ) (bs : List ℕ) → read_numbers 0 (dotted (b ∷ bs)) ≡ b ∷ bs
unfolding dotted
read_numbers-dotted b [] =
    read_numbers-last 0 (digits b) (digits-lacks 46 b refl) ∙ ap (λ v. v ∷ []) (value-digits b)
read_numbers-dotted b (c ∷ bs) =
    read_numbers-append 0 (digits b) (dotted (c ∷ bs)) (digits-lacks 46 b refl)
    ∙ ap₂ (λ (v : ℕ) (vs : List ℕ). v ∷ vs) (value-digits b) (read_numbers-dotted c bs)

dotted-lacks : (x : ℕ) (bs : List ℕ) → (leb 46 x && leb x 57) ≡ false → lacks x (dotted bs) ≡ true
unfolding dotted
dotted-lacks x [] h = refl
dotted-lacks x (b ∷ []) h = digits-lacks x b (ground (arith, h))
dotted-lacks x (b ∷ c ∷ bs) h =
    let rest = dotted-lacks x (c ∷ bs) h in
    lacks-append x (digits b) (46 ∷ dotted (c ∷ bs)) (digits-lacks x b (ground (arith, h)))
      (ground (arith, rest, h))

length-dotted :
    (b : ℕ) (bs : List ℕ)
    → is_bytes (b ∷ bs) ≡ true
    → length (dotted (b ∷ bs)) < 4 * suc (length bs)
unfolding dotted
length-dotted b [] h =
    let small : b < 256 = ground (arith, h) in omega (arith, length-digits_byte b small)
length-dotted b (c ∷ bs) h =
    let small : b < 256 = ground (arith, h) in
    let rest = length-dotted c bs (ground (arith, h)) in
    omega (arith, length-digits_byte b small, rest, length-append (digits b) (46 ∷ dotted (c ∷ bs)))

short_lem : (a : List ℕ) → length a ≡ 4 → is_bytes a ≡ true → length (dotted a) < 16
short_lem [] four bytes = absurd (omega (arith, four))
short_lem (b ∷ bs) four bytes = omega (arith, length-dotted b bs bytes, four)

back_lem : (a : List ℕ) → length a ≡ 4 → is_bytes a ≡ true → parse (dotted a) ≡ some a
unfolding parse
back_lem [] four bytes = absurd (omega (arith, four))
back_lem (b ∷ bs) four bytes =
    let there : (length (b ∷ bs) == 4) ≡ true = ground (arith, four) in
    rw (read_numbers-dotted b bs, there, bytes)

unfoldable pub dotted_inet : Inet
unfolding dotted parse
dotted_inet = record { ntop = dotted; pton = parse }

pub dotted_inet-IsInet : IsInet dotted_inet
unfolding dotted_inet
dotted_inet-IsInet = record {
  short = short_lem;
  closed = λ a _. dotted-lacks 0 a refl;
  no_colon = λ a _. dotted-lacks 58 a refl;
  back = back_lem;
}
