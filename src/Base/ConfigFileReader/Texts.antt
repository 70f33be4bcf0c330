-- ===== src/Base/ConfigFileReader/Texts.antt =====
-- base/ConfigFileReader.cpp: the lines that are written for a map, and what is loaded from them.
use mathlib.Core.List.{append_assoc, append-nil}
use learning_tools.Prelude.{
  ℕ, suc, ◌+◌, ◌≡◌, refl, sym, ◌∙◌, ap, Bool, true, false, not, ◌&&◌, leb, arith, List, [], ◌∷◌,
  ◌++◌, length, length-append, ◌==◌, some,
}
use learning_tools.Prelude.Slices.{take_all}
use learning_tools.Prelude.Int.{pos}
use learning_tools.Base.ConfigFileReader.{
  is_empty, trim_space, Map, insert, parse_line, split, load_line, load_lines, pair_text, Disk,
  IsDisk, write_pairs,
}
use learning_tools.Base.ConfigFileReader.Strings.{
  lacks, lacks-append, until-absent, until-append, behind-append, remove_newline-append,
}
use learning_tools.Base.ConfigFileReader.Trim.{
  strip, first_solid, last_solid, trim_space-strip, skip_blanks_id, trim_end_id,
}
use learning_tools.Base.ConfigFileReader.Lines.{split-line}
use learning_tools.Base.ConfigFileReader.Keys.{is_sorted, is_sorted-all_below, insert-last}

-- A string that begins and ends with no blank, and has no newline, no `#` and no zero byte.
abbrev is_word : List ℕ → Bool
is_word cs = first_solid cs && last_solid cs && lacks 0 cs && lacks 10 cs && lacks 35 cs

-- An entry that its line of at most 127 bytes holds.
abbrev pub is_clean : List ℕ → List ℕ → Bool
is_clean k v = is_word k && is_word v && lacks 61 k && leb (length k + length v) 125

abbrev pub all_clean : Map → Bool
all_clean [] = true
all_clean ((k, v) ∷ m) = is_clean k v && all_clean m

abbrev pub line : List ℕ → List ℕ → List ℕ
line k v = k ++ 61 ∷ v

first_solid-empty : (cs : List ℕ) → first_solid cs ≡ true → is_empty cs ≡ false
first_solid-empty [] e = ground (arith, e)
first_solid-empty (c ∷ cs) e = refl

trim_space_word :
    (cs : List ℕ) → first_solid cs ≡ true → last_solid cs ≡ true → trim_space cs ≡ some (some cs)
unfolding strip
trim_space_word cs f l =
    let same = trim_space-strip cs in
    let front = skip_blanks_id cs f in
    let end = trim_end_id cs l in
    let full = first_solid-empty cs f in ground (arith, same, front, end, full)

lacks-line :
    (b : ℕ) (k v : List ℕ)
    → not (61 == b) ≡ true
    → lacks b k ≡ true
    → lacks b v ≡ true
    → lacks b (line k v) ≡ true
lacks-line b k v n h g = lacks-append b k (61 ∷ v) h (ground (arith, n, g))

parse_line-line :
    (k v : List ℕ) (m : Map) → is_clean k v ≡ true → parse_line (line k v) m ≡ some (insert k v m)
unfolding parse_line
parse_line-line k v m c =
    let key = trim_space_word k (ground (arith, c)) (ground (arith, c)) in
    let value = trim_space_word v (ground (arith, c)) (ground (arith, c)) in
    let front = until-append 61 k v (ground (arith, c)) in
    let back = behind-append 61 k v (ground (arith, c)) in ground (arith, back, front, key, value)

line_full : (k v : List ℕ) → is_empty (line k v) ≡ false
line_full [] v = refl
line_full (c ∷ k) v = refl

load_line-line :
    (k v : List ℕ) (m : Map)
    → is_clean k v ≡ true
    → load_line (line k v ++ 10 ∷ []) m ≡ some (insert k v m)
unfolding load_line
load_line-line k v m c =
    let zero = until-absent 0 (line k v ++ 10 ∷ []) (
      lacks-append 0 (line k v) (10 ∷ [])
        (lacks-line 0 k v refl (ground (arith, c)) (ground (arith, c))) refl) in
    let newline = remove_newline-append (line k v) in
    let comment =
      until-absent 35 (line k v) (lacks-line 35 k v refl (ground (arith, c)) (ground (arith, c))) in
    let parsed = parse_line-line k v m c in
    rw (load_line, zero, newline, comment, line_full k v, parsed)

-- The file that a map is written to.
pub texts : Map → List ℕ
texts [] = []
texts ((k, v) ∷ m) = line k v ++ 10 ∷ texts m

length-line : (k v : List ℕ) → length (line k v) ≡ length k + length v + 1
length-line k v = let both = length-append k (61 ∷ v) in omega (arith, both)

pair_text-line : (k v : List ℕ) → is_clean k v ≡ true → pair_text k v ≡ line k v ++ 10 ∷ []
unfolding pair_text
pair_text-line k v c =
    let short = length-line k v in
    let whole = length-append (line k v) (10 ∷ []) in
    take_all 127 _ (ground (arith, short, whole, c))

pub write_pairs-texts :
    (d : Disk) (i : ℕ) (m : Map)
    → IsDisk d
    → all_clean m ≡ true
    → (write_pairs d i m).0 ≡ pos 0
    → (write_pairs d i m).1 ≡ texts m
unfolding write_pairs texts
write_pairs-texts d i [] ok c e = refl
write_pairs-texts d i ((k, v) ∷ m) ok c e =
    let ih = write_pairs-texts d (suc i) m ok in
    let text = pair_text-line k v (ground (arith, c)) in
    let full = ok.taken i (pair_text k v) in
    let shape = append_assoc (line k v) (10 ∷ []) (texts m) in
    ground (arith, ih, text, full, shape, c, e)

load_lines-cons :
    (buf : List ℕ) (bufs : List (List ℕ)) (m m' : Map)
    → load_line buf m ≡ some m'
    → load_lines (buf ∷ bufs) m ≡ load_lines bufs m'
unfolding load_lines
load_lines-cons buf bufs m m' h = rw (load_lines, h)

pub load_lines-texts :
    (m n : Map)
    → all_clean n ≡ true
    → is_sorted (m ++ n) ≡ true
    → load_lines (split 0 (texts n)).1 m ≡ some (m ++ n)
unfolding texts load_lines split
load_lines-texts m [] c s = ap some (sym (append-nil m))
load_lines-texts m ((k, v) ∷ n) c s =
    let short = length-line k v in
    let one =
      split-line (line k v) (texts n)
        (lacks-line 10 k v refl (ground (arith, c)) (ground (arith, c)))
        (ground (arith, short, c)) in
    let clean : is_clean k v ≡ true = ground (arith, c) in
    let loaded = load_line-line k v m clean in
    let last = insert-last k v m (is_sorted-all_below k v m n s) in
    let shape = append_assoc m ((k, v) ∷ []) n in
    let ih = load_lines-texts (m ++ (k, v) ∷ []) n (ground (arith, c)) (rw shape s) in
    ap (λ ls. load_lines ls m) one
    ∙ load_lines-cons (line k v ++ 10 ∷ []) (split 0 (texts n)).1 m (m ++ (k, v) ∷ [])
        (loaded ∙ ap some last)
    ∙ ih
    ∙ ap some shape
