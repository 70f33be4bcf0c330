-- ===== src/Base/AsyncLog/WriteFile.antt =====
-- base/AsyncLog.cpp: the loop of `writeToFile` comes to an end.
use mathlib.Core.List.{append_assoc, append-nil}
use learning_tools.Prelude.{
  ◌∷◌, sym, not, ◌||◌, length-append, ℕ, zero, suc, ◌^◌, ◌<◌, ◌≤◌, ◌≡◌, refl, ap, ◌∙◌, inl, inr,
  Bool, true, false, Bool-cases, arith, ◌==◌, [], ◌++◌, length, take, drop, length-drop,
  take-append-drop, Option, some,
}
use learning_tools.Prelude.Slices.{take_all}
use learning_tools.Base.AsyncLog.{
  Line, Fwrite, to_int, is_positive, int_le, write_loop, write_to_file,
}

-- fwrite(3) takes no more than it is given.
pub record IsFwrite (fwrite : Fwrite) : Type 0 where
  pub at_most : (i : ℕ) (text : Line) → fwrite i text ≤ length text

-- The loop ends; all was written when it says so, and else only the front of it.
WroteFront : Line → Option Bool × Line → Type 0
WroteFront text r =
    (ok : Bool) × (rest : Line) × ((r.0 ≡ some ok)
      × ((r.1 ++ rest ≡ text) × (ok ≡ true → r.1 ≡ text)))

wrote_last :
    (ret : ℕ) (text : Line) → ret ≤ length text → length (drop ret text) ≡ 0 → take ret text ≡ text
wrote_last ret text h e =
    let shorter = length-drop ret text in take_all ret text (omega (arith, shorter, h, e))

-- One round, by what `fwrite` took.
module _ (fuel : ℕ) (fwrite : Fwrite) (i : ℕ) (text : Line) (h : fwrite i text ≤ length text)
    (short : length text < 2 ^ 31) where
  taken : ℕ
  taken = fwrite i text

  same_int : to_int taken ≡ taken
  unfolding taken
  same_int = omega (arith, h, short)

  same_size : to_int (length text) ≡ length text
  same_size = omega (arith, short)

  in_order : int_le taken (length text) ≡ true
  unfolding taken
  in_order = ground (arith, h, short)

  positive : (taken == 0) ≡ false → is_positive taken ≡ true
  unfolding taken
  positive e = ground (arith, e, h, short)

  write_loop-error : (taken == 0) ≡ true → write_loop (suc fuel) fwrite i text ≡ (some false, [])
  unfolding write_loop taken
  write_loop-error e =
      let nothing : fwrite i text ≡ 0 = ground (arith, e) in rw (write_loop, nothing)

  write_loop-done :
      (taken == 0) ≡ false
      → (length (drop taken text) == 0) ≡ true
      → write_loop (suc fuel) fwrite i text ≡ (some true, take taken text)
  unfolding write_loop taken
  write_loop-done e g = rw (write_loop, same_int, same_size, in_order, positive e, g)

  write_loop-more :
      (taken == 0) ≡ false
      → (length (drop taken text) == 0) ≡ false
      → let again = write_loop fuel fwrite (suc i) (drop taken text) in
        write_loop (suc fuel) fwrite i text ≡ (again.0, take taken text ++ again.1)
  unfolding write_loop taken
  write_loop-more e g = rw (write_loop, same_int, same_size, in_order, positive e, g)

more_WroteFront :
    (ret : ℕ) (text : Line) (r : Option Bool × Line)
    → WroteFront (drop ret text) r
    → WroteFront text (r.0, take ret text ++ r.1)
unfolding WroteFront taken
more_WroteFront ret text r (ok, rest, (e, (front, full))) =
    let whole = take-append-drop ret text in
    (
      ok,
      rest,
      (
        e,
        (
          append_assoc (take ret text) r.1 rest ∙ ap (λ xs. take ret text ++ xs) front ∙ whole,
          λ b. ap (λ xs. take ret text ++ xs) (full b) ∙ whole,
        ),
      ),
    )

write_loop-WroteFront :
    (fuel : ℕ) (fwrite : Fwrite) (i : ℕ) (text : Line)
    → IsFwrite fwrite
    → length text < 2 ^ 31
    → length text < fuel
    → WroteFront text (write_loop fuel fwrite i text)
unfolding WroteFront taken
write_loop-WroteFront zero fwrite i text law short h = ground (arith, h)
write_loop-WroteFront (suc fuel) fwrite i text law short h =
    let most = law.at_most i text in
    elim (Bool-cases (fwrite i text == 0)) [
      | inl e ↦
          rw (write_loop-error fuel fwrite i text most short e)
            (false, text, (refl, (refl, λ b. ground (arith, b))))
      | inr e ↦ elim (Bool-cases (length (drop (fwrite i text) text) == 0)) [
        | inl g ↦
            let last = wrote_last (fwrite i text) text most (ground (arith, g)) in
            rw (write_loop-done fuel fwrite i text most short e g)
              (true, [], (refl, (append-nil _ ∙ last, λ _. last)))
        | inr g ↦
            let shorter = length-drop (fwrite i text) text in
            let rest =
              write_loop-WroteFront fuel fwrite (suc i) (drop (fwrite i text) text) law
                (omega (arith, shorter, short)) (ground (arith, shorter, e, h)) in
            rw (write_loop-more fuel fwrite i text most short e g)
              (more_WroteFront (fwrite i text) text _ rest)
      ]
    ]

abbrev pub is_none_left : Line → Bool
is_none_left [] = true
is_none_left (c ∷ cs) = false

front_whole : (xs ys text : Line) → xs ++ ys ≡ text → xs ≡ text → is_none_left ys ≡ true
front_whole xs [] text e g = refl
front_whole xs (y ∷ ys) text e g =
    let more = length-append xs (y ∷ ys) in
    let same = ap length e ∙ sym (ap length g) in ground (arith, more, same)

pub write_to_file-WroteFront :
    (fwrite : Fwrite) (text : Line)
    → IsFwrite fwrite
    → length text < 2 ^ 31
    → (ok : Bool) × (rest : Line) × (((write_to_file fwrite text).0 ≡ some ok)
        × (((write_to_file fwrite text).1 ++ rest ≡ text)
            × (ok ≡ true → (write_to_file fwrite text).1 ≡ text)))
unfolding write_to_file WroteFront
write_to_file-WroteFront fwrite text law short =
    write_loop-WroteFront (suc (length text)) fwrite 0 text law short (omega arith)

-- For a text of less than 2^31 bytes, which the int of the loop can count: however little fwrite(3) takes at a time,
-- the loop comes to an end, with a result; what it wrote is the front of the text, and nothing of the
-- text is left when the result is true.
pub write_to_file-ends :
    (fwrite : Fwrite) (text : Line)
    → IsFwrite fwrite
    → length text < 2 ^ 31
    → (ok : Bool) × (rest : Line) × (((write_to_file fwrite text).0 ≡ some ok)
        × (((write_to_file fwrite text).1 ++ rest ≡ text) × (not ok || is_none_left rest ≡ true)))
write_to_file-ends fwrite text law short =
    let (ok, rest, (e, (front, full))) = write_to_file-WroteFront fwrite text law short in
    let nothing =
      λ (b : ok ≡ true). front_whole (write_to_file fwrite text).1 rest text front (full b) in
    (ok, rest, (e, (front, ground (arith, nothing))))
