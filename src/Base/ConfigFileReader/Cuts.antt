-- ===== src/Base/ConfigFileReader/Cuts.antt =====
-- base/ConfigFileReader.cpp: `trimSpace` cuts the spaces, tabs and returns at both ends, and nothing else.
use learning_tools.Prelude.{
  ℕ, ◌≡◌, refl, ap, ◌∙◌, Bool, true, false, Bool-cases, inl, inr, not, ◌&&◌, ◌||◌, ◌==◌, arith,
  if◌then◌else◌, List, [], ◌∷◌, ◌++◌, none, some,
}
use learning_tools.Base.ConfigFileReader.{is_empty, skip_blanks, trim_space}
use learning_tools.Base.ConfigFileReader.Trim.{strip, trim_end, trim_space-strip}

-- A space, a tab or a carriage return.
abbrev pub is_white : ℕ → Bool
is_white c = c == 32 || c == 9 || c == 13

unfoldable pub all_white : List ℕ → Bool
all_white [] = true
all_white (c ∷ cs) = is_white c && all_white cs

abbrev pub starts_bare : List ℕ → Bool
starts_bare [] = true
starts_bare (c ∷ cs) = not (is_white c)

unfoldable pub ends_bare : List ℕ → Bool
ends_bare [] = true
ends_bare (c ∷ []) = not (is_white c)
ends_bare (c ∷ d ∷ cs) = ends_bare (d ∷ cs)

skip_blanks-front :
    (cs : List ℕ)
    → (front : List ℕ) × ((cs ≡ front ++ skip_blanks cs)
        × ((all_white front ≡ true) × (starts_bare (skip_blanks cs) ≡ true)))
unfolding skip_blanks all_white
skip_blanks-front [] = ([], (refl, (refl, refl)))
skip_blanks-front (c ∷ cs) = elim (Bool-cases (is_white c)) [
  | inl w ↦
      let (front, (e, (white, bare))) = skip_blanks-front cs in
      rw w (c ∷ front, (ap (λ xs. c ∷ xs) e, (ground (arith, w, white), bare)))
  | inr w ↦ rw w ([], (refl, (refl, ground (arith, w))))
]

starts_bare-trim_end : (cs : List ℕ) → starts_bare cs ≡ true → starts_bare (trim_end cs) ≡ true
unfolding trim_end
starts_bare-trim_end [] h = refl
starts_bare-trim_end (c ∷ cs) h = ground (arith, h)

empty_list : (cs : List ℕ) → is_empty cs ≡ true → cs ≡ []
empty_list [] e = refl
empty_list (c ∷ cs) e = ground (arith, e)

ends_bare-cons :
    (c : ℕ) (cs : List ℕ)
    → is_empty cs && is_white c ≡ false
    → ends_bare cs ≡ true
    → ends_bare (c ∷ cs) ≡ true
unfolding ends_bare
ends_bare-cons c [] e h = ground (arith, e)
ends_bare-cons c (d ∷ cs) e h = h

trim_end-back :
    (cs : List ℕ)
    → (back : List ℕ) × ((cs ≡ trim_end cs ++ back)
        × ((all_white back ≡ true) × (ends_bare (trim_end cs) ≡ true)))
unfolding trim_end all_white ends_bare
trim_end-back [] = ([], (refl, (refl, refl)))
trim_end-back (c ∷ cs) =
    let (back, (e, (white, bare))) = trim_end-back cs in
    elim (Bool-cases (is_empty (trim_end cs) && is_white c)) [
      | inl w ↦
          let nothing = empty_list (trim_end cs) (ground (arith, w)) in
          let same : cs ≡ back = e ∙ ap (λ xs. xs ++ back) nothing in
          rw w (c ∷ back, (ap (λ xs. c ∷ xs) same, (ground (arith, w, white), refl)))
      | inr w ↦
          let more = ends_bare-cons c (trim_end cs) w bare in
          rw w (back, (ap (λ xs. c ∷ xs) e, (white, more)))
    ]

-- Any string is spaces, tabs and returns, then a text that is empty or begins and ends with none of
-- them, then again such bytes, and `trimSpace`, with no access outside the string, returns the text, or NULL if
-- it is empty.
pub trim_space-cuts :
    (name : List ℕ)
    → (front text back : List ℕ) × ((name ≡ front ++ (text ++ back))
        × ((all_white front && all_white back && starts_bare text && ends_bare text ≡ true)
            × (trim_space name ≡ some (if is_empty text then none else some text))))
unfolding strip
trim_space-cuts name =
    let (front, (e, (white, bare))) = skip_blanks-front name in
    let (back, (e', (white', bare'))) = trim_end-back (skip_blanks name) in
    let begins = starts_bare-trim_end (skip_blanks name) bare in
    (
      front,
      trim_end (skip_blanks name),
      back,
      (
        e ∙ ap (λ xs. front ++ xs) e',
        (ground (arith, white, white', begins, bare'), trim_space-strip name),
      ),
    )
