-- ===== src/Base/ConfigFileReader/Trim.antt =====
-- base/ConfigFileReader.cpp: `trimSpace` cuts the blanks at both ends.
use learning_tools.Prelude.{
  ℕ, zero, suc, ◌-◌, ◌<◌, ◌≤◌, ◌≡◌, refl, sym, ap, ◌∙◌, Bool, true, false, Bool-cases, inl, inr,
  not, ◌&&◌, arith, if◌then◌else◌, List, [], ◌∷◌, length, drop, length-drop, Option, none, some,
}
use learning_tools.Base.ConfigFileReader.{is_blank, is_empty, skip_blanks, scan_end, trim_space}

unfoldable pub trim_end : List ℕ → List ℕ
trim_end [] = []
trim_end (c ∷ cs) = let rest = trim_end cs in if is_empty rest && is_blank c then [] else c ∷ rest

-- The reference: the front, then the end, of a list.
unfoldable pub strip : List ℕ → List ℕ
unfolding skip_blanks trim_end
strip cs = trim_end (skip_blanks cs)

abbrev pub some_nonempty : List ℕ → Option (List ℕ)
some_nonempty cs = if is_empty cs then none else some cs

trim_end-is_empty : (cs : List ℕ) → is_empty (trim_end cs) ≡ is_empty (skip_blanks cs)
unfolding skip_blanks trim_end
trim_end-is_empty [] = refl
trim_end-is_empty (c ∷ cs) = let ih = trim_end-is_empty cs in ground (arith, ih)

length-skip_blanks : (cs : List ℕ) → length (skip_blanks cs) ≤ length cs
unfolding skip_blanks
length-skip_blanks [] = omega arith
length-skip_blanks (c ∷ cs) = let ih = length-skip_blanks cs in ground (arith, ih)

drop_nil : (n : ℕ) → drop {A = ℕ} n [] ≡ []
drop_nil zero = refl
drop_nil (suc n) = refl

empty_nil : (cs : List ℕ) → is_empty cs ≡ true → cs ≡ []
empty_nil [] e = refl
empty_nil (c ∷ cs) e = ground (arith, e)

trim_end-skip_blanks_empty :
    (cs : List ℕ) → is_empty (trim_end cs) ≡ true → trim_end (skip_blanks cs) ≡ []
unfolding trim_end
trim_end-skip_blanks_empty cs e = rw (empty_nil (skip_blanks cs) (sym (trim_end-is_empty cs) ∙ e))

drop-solid :
    (c : ℕ) (cs : List ℕ)
    → is_blank c ≡ false
    → drop (length (c ∷ cs) - length (skip_blanks (c ∷ cs))) (trim_end (c ∷ cs))
      ≡ trim_end (skip_blanks (c ∷ cs))
unfolding skip_blanks
drop-solid c cs e =
    let none_dropped : suc (length cs) - suc (length cs) ≡ 0 = omega arith in
    ground (arith, e, none_dropped)

drop-blank :
    (c : ℕ) (cs : List ℕ)
    → is_blank c ≡ true
    → drop (length cs - length (skip_blanks cs)) (trim_end cs) ≡ trim_end (skip_blanks cs)
    → drop (length (c ∷ cs) - length (skip_blanks (c ∷ cs))) (trim_end (c ∷ cs))
      ≡ trim_end (skip_blanks (c ∷ cs))
unfolding skip_blanks trim_end
drop-blank c cs e ih =
    let bound = length-skip_blanks cs in
    let next : suc (length cs) - length (skip_blanks cs)
        ≡ suc (length cs - length (skip_blanks cs)) =
      omega (arith, bound) in
    let nothing = trim_end-skip_blanks_empty cs in
    let dropped = drop_nil (suc (length cs) - length (skip_blanks cs)) in
    let none_left = empty_nil (trim_end cs) in
    ground (arith, dropped, none_left, ih, next, nothing, e)

drop-trim_end :
    (cs : List ℕ)
    → drop (length cs - length (skip_blanks cs)) (trim_end cs) ≡ trim_end (skip_blanks cs)
unfolding skip_blanks trim_end
drop-trim_end [] = refl
drop-trim_end (c ∷ cs) = elim (Bool-cases (is_blank c)) [
  | inl e ↦ drop-blank c cs e (drop-trim_end cs)
  | inr e ↦ drop-solid c cs e
]

-- No blank at the front, and none at the end.
abbrev pub first_solid : List ℕ → Bool
first_solid [] = false
first_solid (c ∷ cs) = not (is_blank c)

abbrev pub last_solid : List ℕ → Bool
last_solid [] = false
last_solid (c ∷ []) = not (is_blank c)
last_solid (c ∷ d ∷ cs) = last_solid (d ∷ cs)

last_solid-cons : (c : ℕ) (cs : List ℕ) → is_empty cs ≡ false → last_solid (c ∷ cs) ≡ last_solid cs
last_solid-cons c [] e = ground (arith, e)
last_solid-cons c (d ∷ cs) e = refl

trim_end-cons :
    (c : ℕ) (cs : List ℕ) → is_empty (trim_end cs) ≡ false → trim_end (c ∷ cs) ≡ c ∷ trim_end cs
unfolding trim_end
trim_end-cons c cs e = ground (arith, e)

first_solid-is_empty : (cs : List ℕ) → first_solid cs ≡ true → is_empty cs ≡ false
first_solid-is_empty [] e = ground (arith, e)
first_solid-is_empty (c ∷ cs) e = refl

length_pos : (cs : List ℕ) → is_empty cs ≡ false → 0 < length cs
length_pos [] e = ground (arith, e)
length_pos (c ∷ cs) e = omega arith

trim_end-last_solid :
    (cs : List ℕ) → is_empty (trim_end cs) ≡ false → last_solid (trim_end cs) ≡ true
unfolding trim_end
trim_end-last_solid [] e = ground (arith, e)
trim_end-last_solid (c ∷ cs) e =
    let ih = trim_end-last_solid cs in
    let last = last_solid-cons c (trim_end cs) in
    let none_left = empty_nil (trim_end cs) in ground (arith, ih, last, none_left, e)

skip_blanks-first_solid :
    (cs : List ℕ) → is_empty (skip_blanks cs) ≡ false → first_solid (skip_blanks cs) ≡ true
unfolding skip_blanks
skip_blanks-first_solid [] e = ground (arith, e)
skip_blanks-first_solid (c ∷ cs) e = let ih = skip_blanks-first_solid cs in ground (arith, ih, e)

trim_end-first_solid : (cs : List ℕ) → first_solid cs ≡ true → first_solid (trim_end cs) ≡ true
unfolding trim_end
trim_end-first_solid [] e = e
trim_end-first_solid (c ∷ cs) e = ground (arith, e)

pub skip_blanks_id : (cs : List ℕ) → first_solid cs ≡ true → skip_blanks cs ≡ cs
unfolding skip_blanks
skip_blanks_id [] e = refl
skip_blanks_id (c ∷ cs) e = ground (arith, e)

pub trim_end_id : (cs : List ℕ) → last_solid cs ≡ true → trim_end cs ≡ cs
unfolding trim_end
trim_end_id [] e = refl
trim_end_id (c ∷ []) e = ground (arith, e)
trim_end_id (c ∷ d ∷ cs) e =
    let ih = trim_end_id (d ∷ cs) e in
    trim_end-cons c (d ∷ cs) (ap is_empty ih) ∙ ap (λ xs. c ∷ xs) ih

strip-first_solid :
    (name : List ℕ) → is_empty (skip_blanks name) ≡ false → first_solid (strip name) ≡ true
unfolding strip
strip-first_solid name e = trim_end-first_solid (skip_blanks name) (skip_blanks-first_solid name e)

empty-length : (cs : List ℕ) → is_empty cs ≡ true → length cs ≡ 0
empty-length [] e = refl
empty-length (c ∷ cs) e = ground (arith, e)

scan_end-trim_end : (cs : List ℕ) → scan_end cs ≡ some_nonempty (trim_end cs)
unfolding scan_end trim_end
scan_end-trim_end [] = refl
scan_end-trim_end (c ∷ cs) =
    let nothing = empty_nil (trim_end cs) in
    elim (Bool-cases (is_empty (trim_end cs))) [
      | inl e ↦
          let ih : scan_end cs ≡ none =
            scan_end-trim_end cs ∙ ap (λ (b : Bool). if b then none else some (trim_end cs)) e in
          let none_left = nothing e in ground (arith, ih, none_left)
      | inr e ↦
          let ih : scan_end cs ≡ some (trim_end cs) =
            scan_end-trim_end cs ∙ ap (λ (b : Bool). if b then none else some (trim_end cs)) e in
          ground (arith, ih, e)
    ]

trim_space-solid :
    (name : List ℕ)
    → is_empty (skip_blanks name) ≡ false
    → trim_space name ≡ some (some (strip name))
unfolding trim_space strip
trim_space-solid name e =
    let same = drop-trim_end name in
    let short = length-drop (length name - length (skip_blanks name)) (trim_end name) in
    let long =
      length_pos (strip name) (first_solid-is_empty (strip name) (strip-first_solid name e)) in
    let start = length_pos (skip_blanks name) e in
    let left : 0 < length (trim_end name) - (length name - length (skip_blanks name)) =
      rw (sym short, same) long in
    let scanned = scan_end-trim_end name in
    let full = trim_end-is_empty name in ground (arith, same, left, start, scanned, full, e)

-- The pointers that `trimSpace` moves from both ends stay in the string, and give what is left when the front
-- of a copy is cut first and then its end; they give no pointer where that is empty.
pub trim_space-strip : (name : List ℕ) → trim_space name ≡ some (some_nonempty (strip name))
unfolding trim_space strip trim_end
trim_space-strip name = elim (Bool-cases (is_empty (skip_blanks name))) [
  | inl e ↦ let nothing = empty_nil (skip_blanks name) e in ground (arith, nothing)
  | inr e ↦
      let full = first_solid-is_empty (strip name) (strip-first_solid name e) in
      let solid = trim_space-solid name e in ground (arith, solid, full)
]

-- What is returned starts and ends with no blank.
pub trim_space-ends :
    (name t : List ℕ)
    → trim_space name ≡ some (some t)
    → (first_solid t ≡ true) × (last_solid t ≡ true)
unfolding strip trim_end
trim_space-ends name t e = elim (Bool-cases (is_empty (skip_blanks name))) [
  | inl n ↦
      let nothing = empty_nil (skip_blanks name) n in
      let same = trim_space-strip name in ground (arith, nothing, same, e)
  | inr n ↦
      let first = strip-first_solid name n in
      let last = trim_end-last_solid (skip_blanks name) (first_solid-is_empty (strip name) first) in
      let solid = trim_space-solid name n in ground (arith, solid, first, last, e)
]
