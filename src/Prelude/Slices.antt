-- ===== src/Prelude/Slices.antt =====
-- Blocks of a byte array: the copy loops (`std::copy`, `memcpy`) and `vector::resize`, with the laws
-- that say which block of the array a copy changes.
use Prim.Native.Nat.{ℕ, zero, suc, ◌+◌, ◌-◌, ◌≤◌}
use Prim.Native.Nat.add
use mathlib.Core.Path.{◌≡◌, refl, ap, sym, ◌∙◌}
use mathlib.Core.List.{List, [], ◌∷◌, ◌++◌}
use native.Mathlib.Omega.{arith}
use learning_tools.Prelude.Lists.{
  length, length-append, take, drop, replicate, length-take, length-drop, length-replicate,
}

module _ {ℓ} {A : Type ℓ} where
  -- Copies `ys` over the block of `xs` that starts at `i`. What would fall behind the array is
  -- dropped: callers are shown to stay inside.
  unfoldable pub write_at : List A → ℕ → List A → List A
  write_at [] i ys = []
  write_at (x ∷ xs) zero [] = x ∷ xs
  write_at (x ∷ xs) zero (y ∷ ys) = y ∷ write_at xs zero ys
  write_at (x ∷ xs) (suc i) ys = x ∷ write_at xs i ys

  -- `k` elements from index `r` on.
  unfoldable pub slice : ℕ → ℕ → List A → List A
  slice r k xs = take k (drop r xs)

  pub length-write_at : (xs : List A) (i : ℕ) (ys : List A) → length (write_at xs i ys) ≡ length xs
  unfolding write_at
  length-write_at [] i ys = refl
  length-write_at (x ∷ xs) zero [] = refl
  length-write_at (x ∷ xs) zero (y ∷ ys) = ap suc (length-write_at xs zero ys)
  length-write_at (x ∷ xs) (suc i) ys = ap suc (length-write_at xs i ys)

  pub slice-zero : (r : ℕ) (xs : List A) → slice r zero xs ≡ []
  unfolding slice
  slice-zero r xs = refl

  take-nil : (n : ℕ) → take {A = A} n [] ≡ []
  take-nil zero = refl
  take-nil (suc n) = refl

  drop-nil : (n : ℕ) → drop {A = A} n [] ≡ []
  drop-nil zero = refl
  drop-nil (suc n) = refl

  pub take-append : (n : ℕ) (xs ys : List A) → n ≡ length xs → take n (xs ++ ys) ≡ xs
  take-append zero [] ys h = refl
  take-append (suc n) [] ys h = absurd (omega arith)
  take-append zero (x ∷ xs) ys h = absurd (omega arith)
  take-append (suc n) (x ∷ xs) ys h = ap (◌∷◌ x) (take-append n xs ys (omega arith))

  pub drop-append : (n : ℕ) (xs ys : List A) → n ≡ length xs → drop n (xs ++ ys) ≡ ys
  drop-append zero [] ys h = refl
  drop-append (suc n) [] ys h = absurd (omega arith)
  drop-append zero (x ∷ xs) ys h = absurd (omega arith)
  drop-append (suc n) (x ∷ xs) ys h = drop-append n xs ys (omega arith)

  pub drop-append_of_le :
      (n : ℕ) (xs ys : List A) → n ≤ length xs → drop n (xs ++ ys) ≡ drop n xs ++ ys
  drop-append_of_le zero xs ys h = refl
  drop-append_of_le (suc n) [] ys h = absurd (omega arith)
  drop-append_of_le (suc n) (x ∷ xs) ys h = drop-append_of_le n xs ys (omega arith)

  pub take_all : (n : ℕ) (xs : List A) → length xs ≤ n → take n xs ≡ xs
  take_all zero [] h = refl
  take_all (suc n) [] h = refl
  take_all zero (x ∷ xs) h = absurd (omega arith)
  take_all (suc n) (x ∷ xs) h = ap (◌∷◌ x) (take_all n xs (omega arith))

  pub length-slice : (r k : ℕ) (xs : List A) → r + k ≤ length xs → length (slice r k xs) ≡ k
  unfolding slice
  length-slice r k xs h = omega (arith, length-take k (drop r xs), length-drop r xs)

  -- A copy that starts at the front of a block, and ends inside the array.
  take-write_at_start :
      (xs ys : List A) → length ys ≤ length xs → take (length ys) (write_at xs zero ys) ≡ ys
  unfolding write_at
  take-write_at_start xs [] h = refl
  take-write_at_start [] (y ∷ ys) h = absurd (omega arith)
  take-write_at_start (x ∷ xs) (y ∷ ys) h = ap (◌∷◌ y) (take-write_at_start xs ys (omega arith))

  -- Copying at the end of a block extends it.
  pub slice-write_at_end :
      (xs ys : List A) (r k w : ℕ)
      → w ≡ r + k
      → w + length ys ≤ length xs
      → slice r (k + length ys) (write_at xs w ys) ≡ slice r k xs ++ ys
  unfolding slice write_at
  slice-write_at_end [] (y ∷ ys) r k w e h = absurd (omega arith)
  slice-write_at_end [] [] r k w e h = rw (drop-nil r, take-nil k, take-nil (k + 0))
  slice-write_at_end (x ∷ xs) ys (suc r) k (suc w) e h =
      slice-write_at_end xs ys r k w (omega arith) (omega arith)
  slice-write_at_end (x ∷ xs) ys (suc r) k zero e h = absurd (omega arith)
  slice-write_at_end (x ∷ xs) ys zero (suc k) (suc w) e h =
      rw add.suc (ap (◌∷◌ x) (slice-write_at_end xs ys zero k w (omega arith) (omega arith)))
  slice-write_at_end (x ∷ xs) ys zero (suc k) zero e h = absurd (omega arith)
  slice-write_at_end (x ∷ xs) ys zero zero (suc w) e h = absurd (omega arith)
  slice-write_at_end (x ∷ xs) ys zero zero zero e h =
      rw add.zero (take-write_at_start (x ∷ xs) ys (omega arith))

  -- What is copied can be read back at the place where it was put.
  pub slice-write_at_self :
      (xs ys : List A) (i : ℕ)
      → i + length ys ≤ length xs
      → slice i (length ys) (write_at xs i ys) ≡ ys
  unfolding slice write_at
  slice-write_at_self [] [] i h = refl
  slice-write_at_self [] (y ∷ ys) i h = absurd (omega arith)
  slice-write_at_self (x ∷ xs) ys zero h = take-write_at_start (x ∷ xs) ys (omega arith)
  slice-write_at_self (x ∷ xs) ys (suc i) h = slice-write_at_self xs ys i (omega arith)

  pub write_at-nil : (xs : List A) → write_at xs zero [] ≡ xs
  unfolding write_at
  write_at-nil [] = refl
  write_at-nil (x ∷ xs) = refl

  take-write_at_front :
      (xs ys : List A) (k : ℕ)
      → length ys + k ≤ length xs
      → take (length ys + k) (write_at xs zero ys) ≡ ys ++ take k (drop (length ys) xs)
  unfolding write_at
  take-write_at_front xs [] k h = rw (write_at-nil xs, add.zero)
  take-write_at_front [] (y ∷ ys) k h = absurd (omega arith)
  take-write_at_front (x ∷ xs) (y ∷ ys) k h =
      rw add.suc (ap (◌∷◌ y) (take-write_at_front xs ys k (omega arith)))

  -- A copy just below a block extends it at the front.
  pub slice-write_at_front :
      (xs ys : List A) (p r k : ℕ)
      → r ≡ p + length ys
      → r + k ≤ length xs
      → slice p (length ys + k) (write_at xs p ys) ≡ ys ++ slice r k xs
  unfolding slice write_at
  slice-write_at_front [] [] p r k e h = rw (drop-nil p, drop-nil r, take-nil k, take-nil (0 + k))
  slice-write_at_front [] (y ∷ ys) p r k e h = absurd (omega arith)
  slice-write_at_front (x ∷ xs) ys zero r k e h =
      rw (e, add.zero) (take-write_at_front (x ∷ xs) ys k (omega arith))
  slice-write_at_front (x ∷ xs) ys (suc p) zero k e h = absurd (omega arith)
  slice-write_at_front (x ∷ xs) ys (suc p) (suc r) k e h =
      slice-write_at_front xs ys p r k (omega arith) (omega arith)

  pub drop-drop : (r n : ℕ) (xs : List A) → drop n (drop r xs) ≡ drop (r + n) xs
  drop-drop zero n xs = rw add.zero
  drop-drop (suc r) n [] = rw add.suc (drop-nil n)
  drop-drop (suc r) n (x ∷ xs) = rw add.suc (drop-drop r n xs)

  drop-take : (n k : ℕ) (xs : List A) → drop n (take k xs) ≡ take (k - n) (drop n xs)
  drop-take zero k xs = ap (λ m. take m xs) (omega arith)
  drop-take (suc n) zero xs =
      let none_left : ◌≡◌ {A = ℕ} 0 (0 - suc n) = omega arith in
      ap (λ m. take m (drop (suc n) xs)) none_left
  drop-take (suc n) (suc k) [] = sym (take-nil (suc k - suc n))
  drop-take (suc n) (suc k) (x ∷ xs) = drop-take n k xs ∙ ap (λ m. take m (drop n xs)) (omega arith)

  take-take : (n k : ℕ) (xs : List A) → n ≤ k → take n (take k xs) ≡ take n xs
  take-take zero k xs h = refl
  take-take (suc n) zero xs h = absurd (omega arith)
  take-take (suc n) (suc k) [] h = refl
  take-take (suc n) (suc k) (x ∷ xs) h = ap (◌∷◌ x) (take-take n k xs (omega arith))

  -- Dropping from a block moves its start.
  pub drop-slice : (n r k : ℕ) (xs : List A) → drop n (slice r k xs) ≡ slice (r + n) (k - n) xs
  unfolding slice
  drop-slice n r k xs = drop-take n k (drop r xs) ∙ ap (take (k - n)) (drop-drop r n xs)

  pub take-slice : (n r k : ℕ) (xs : List A) → n ≤ k → take n (slice r k xs) ≡ slice r n xs
  unfolding slice
  take-slice n r k xs h = take-take n k (drop r xs) h

  -- A block does not see what is copied in front of it.
  pub drop-write_at :
      (xs ys : List A) (i j : ℕ) → i + length ys ≤ j → drop j (write_at xs i ys) ≡ drop j xs
  unfolding write_at
  drop-write_at [] ys i j h = refl
  drop-write_at (x ∷ xs) [] zero j h = refl
  drop-write_at (x ∷ xs) (y ∷ ys) zero zero h = absurd (omega arith)
  drop-write_at (x ∷ xs) (y ∷ ys) zero (suc j) h = drop-write_at xs ys zero j (omega arith)
  drop-write_at (x ∷ xs) ys (suc i) zero h = absurd (omega arith)
  drop-write_at (x ∷ xs) ys (suc i) (suc j) h = drop-write_at xs ys i j (omega arith)

  -- Nor what is appended behind the array.
  pub slice-append :
      (r k : ℕ) (xs ys : List A) → r + k ≤ length xs → slice r k (xs ++ ys) ≡ slice r k xs
  unfolding slice
  slice-append zero zero xs ys h = refl
  slice-append zero (suc k) [] ys h = absurd (omega arith)
  slice-append zero (suc k) (x ∷ xs) ys h = ap (◌∷◌ x) (slice-append zero k xs ys (omega arith))
  slice-append (suc r) k [] ys h = absurd (omega arith)
  slice-append (suc r) k (x ∷ xs) ys h = slice-append r k xs ys (omega arith)

  -- `vector::resize(n)`: cuts the array, or fills it up with `z`.
  unfoldable pub resize : List A → ℕ → A → List A
  resize xs n z = take n xs ++ replicate (n - length xs) z

  pub length-resize : (xs : List A) (n : ℕ) (z : A) → length (resize xs n z) ≡ n
  unfolding resize
  length-resize xs n z = omega (
    arith,
    length-append (take n xs) (replicate (n - length xs) z),
    length-take n xs,
    length-replicate (n - length xs) z,
  )

  -- Growing keeps every block.
  pub slice-resize :
      (r k : ℕ) (xs : List A) (n : ℕ) (z : A)
      → r + k ≤ length xs
      → length xs ≤ n
      → slice r k (resize xs n z) ≡ slice r k xs
  unfolding resize
  slice-resize r k xs n z h g = rw (take_all n xs g) (slice-append r k xs _ h)
