-- ===== src/Base/ConfigFileReader/Keys.antt =====
-- base/ConfigFileReader.cpp: the map of keys and values, in the order of its keys.
use learning_tools.Prelude.{
  ℕ, ◌≡◌, refl, Bool, true, inl, inr, ◌&&◌, ◌||◌, arith, List, [], ◌∷◌, ◌++◌, Option-cases, none,
  some,
}
use learning_tools.Prelude.Strings.{less, less_irrefl, less_asymm, less_tri, less_trans}
use learning_tools.Base.ConfigFileReader.{Map, insert, find, assign, set_value}

-- Every key is above, or below, the given one.
abbrev pub all_above : List ℕ → Map → Bool
all_above k [] = true
all_above k ((k', v) ∷ m) = less k k' && all_above k m

abbrev pub all_below : List ℕ → Map → Bool
all_below k [] = true
all_below k ((k', v) ∷ m) = less k' k && all_below k m

abbrev pub is_sorted : Map → Bool
is_sorted [] = true
is_sorted ((k, v) ∷ m) = all_above k m && is_sorted m

-- The key is new at its place.
all_above_trans :
    (k j : List ℕ) (m : Map) → less k j ≡ true → all_above j m ≡ true → all_above k m ≡ true
all_above_trans k j [] h g = refl
all_above_trans k j ((k', v) ∷ m) h g =
    let ih = all_above_trans k j m h in
    let step = less_trans k j k' h in ground (arith, ih, step, g)

insert-all_above :
    (j k v : List ℕ) (m : Map)
    → less j k ≡ true
    → all_above j m ≡ true
    → all_above j (insert k v m) ≡ true
unfolding insert
insert-all_above j k v [] h g = ground (arith, h)
insert-all_above j k v ((k', v') ∷ m) h g =
    let ih = insert-all_above j k v m h in ground (arith, ih, h, g)

pub insert-is_sorted :
    (k v : List ℕ) (m : Map) → is_sorted m ≡ true → is_sorted (insert k v m) ≡ true
unfolding insert
insert-is_sorted k v [] h = refl
insert-is_sorted k v ((k', v') ∷ m) h =
    let ih = insert-is_sorted k v m in
    let above = insert-all_above k' k v m in
    let above' = all_above_trans k k' m in ground (arith, ih, above, above', h)

assign-all_above : (j k v : List ℕ) (m : Map) → all_above j (assign k v m) ≡ all_above j m
unfolding assign
assign-all_above j k v [] = refl
assign-all_above j k v ((k', v') ∷ m) = let ih = assign-all_above j k v m in ground (arith, ih)

assign-is_sorted : (k v : List ℕ) (m : Map) → is_sorted (assign k v m) ≡ is_sorted m
unfolding assign
assign-is_sorted k v [] = refl
assign-is_sorted k v ((k', v') ∷ m) =
    let ih = assign-is_sorted k v m in
    let above = assign-all_above k' k v m in ground (arith, ih, above)

pub set_value-is_sorted :
    (k v : List ℕ) (m : Map) → is_sorted m ≡ true → is_sorted (set_value k v m) ≡ true
unfolding set_value
set_value-is_sorted k v m h =
    let inserted = insert-is_sorted k v m h in
    let assigned = assign-is_sorted k v m in ground (arith, inserted, assigned, h)

find-insert : (k v : List ℕ) (m : Map) → find k m ≡ none → find k (insert k v m) ≡ some v
unfolding find insert
find-insert k v [] h = let irrefl = less_irrefl k in ground (arith, irrefl)
find-insert k v ((k', v') ∷ m) h =
    let ih = find-insert k v m in
    let irrefl = less_irrefl k in
    let asymm = less_asymm k k' in ground (arith, ih, irrefl, asymm, h)

find-assign : (k v w : List ℕ) (m : Map) → find k m ≡ some w → find k (assign k v m) ≡ some v
unfolding find assign
find-assign k v w [] h = ground (arith, h)
find-assign k v w ((k', v') ∷ m) h = let ih = find-assign k v w m in ground (arith, ih, h)

pub find-set_value : (k v : List ℕ) (m : Map) → find k (set_value k v m) ≡ some v
unfolding set_value
find-set_value k v m = elim (Option-cases (find k m)) [
  | inl h ↦ let inserted = find-insert k v m h in ground (arith, inserted, h)
  | inr (w, h) ↦ let assigned = find-assign k v w m h in ground (arith, assigned, h)
]

find-insert_ne :
    (j k v : List ℕ) (m : Map) → less j k || less k j ≡ true → find j (insert k v m) ≡ find j m
unfolding find insert
find-insert_ne j k v [] h = let asymm = less_asymm j k in ground (arith, asymm, h)
find-insert_ne j k v ((k', v') ∷ m) h =
    let ih = find-insert_ne j k v m h in
    let trans = less_trans j k k' in
    let asymm = less_asymm j k in ground (arith, ih, trans, asymm, h)

find-assign_ne :
    (j k v : List ℕ) (m : Map) → less j k || less k j ≡ true → find j (assign k v m) ≡ find j m
unfolding find assign
find-assign_ne j k v [] h = refl
find-assign_ne j k v ((k', v') ∷ m) h =
    let ih = find-assign_ne j k v m h in let same = less_tri k k' in ground (arith, ih, same, h)

pub find-set_value_ne :
    (j k v : List ℕ) (m : Map) → less j k || less k j ≡ true → find j (set_value k v m) ≡ find j m
unfolding set_value
find-set_value_ne j k v m h =
    let inserted = find-insert_ne j k v m h in
    let assigned = find-assign_ne j k v m h in ground (arith, inserted, assigned)

-- A key above all others goes to the end.
pub insert-last : (k v : List ℕ) (m : Map) → all_below k m ≡ true → insert k v m ≡ m ++ (k, v) ∷ []
unfolding insert
insert-last k v [] h = refl
insert-last k v ((k', v') ∷ m) h =
    let ih = insert-last k v m in let asymm = less_asymm k' k in ground (arith, ih, asymm, h)

all_above-append :
    (j k v : List ℕ) (m n : Map) → all_above j (m ++ (k, v) ∷ n) ≡ true → less j k ≡ true
all_above-append j k v [] n h = ground (arith, h)
all_above-append j k v ((k', v') ∷ m) n h = all_above-append j k v m n (ground (arith, h))

pub is_sorted-all_below :
    (k v : List ℕ) (m n : Map) → is_sorted (m ++ (k, v) ∷ n) ≡ true → all_below k m ≡ true
is_sorted-all_below k v [] n h = refl
is_sorted-all_below k v ((k', v') ∷ m) n h =
    let ih = is_sorted-all_below k v m n in
    let above = all_above-append k' k v m n in ground (arith, ih, above, h)
