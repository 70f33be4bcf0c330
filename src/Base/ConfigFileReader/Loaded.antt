-- ===== src/Base/ConfigFileReader/Loaded.antt =====
-- base/ConfigFileReader.cpp: what every loaded map satisfies.
use learning_tools.Prelude.{
  ℕ, ◌≡◌, refl, sym, ◌∙◌, Bool, true, ◌&&◌, arith, List, [], ◌∷◌, Option, none, Option-cases, inl,
  inr, some,
}
use learning_tools.Base.ConfigFileReader.{
  skip_blanks, trim_space, until, behind, Map, insert, insert_pair, parse_line, split,
  remove_newline, load_line, load_lines, Reader, load_file,
}
use learning_tools.Base.ConfigFileReader.Strings.{lacks, until-lacks}
use learning_tools.Base.ConfigFileReader.Trim.{
  trim_end, some_nonempty, strip, first_solid, last_solid, trim_space-strip, trim_space-ends,
}
use learning_tools.Base.ConfigFileReader.Keys.{is_sorted, insert-is_sorted}

-- No blank at an end, and no `#`.
abbrev pub is_trimmed : List ℕ → Bool
is_trimmed cs = first_solid cs && last_solid cs && lacks 35 cs

abbrev pub all_trimmed : Map → Bool
all_trimmed [] = true
all_trimmed ((k, v) ∷ m) = is_trimmed k && lacks 61 k && is_trimmed v && all_trimmed m

lacks-skip_blanks : (b : ℕ) (cs : List ℕ) → lacks b cs ≡ true → lacks b (skip_blanks cs) ≡ true
unfolding skip_blanks
lacks-skip_blanks b [] h = refl
lacks-skip_blanks b (c ∷ cs) h = let ih = lacks-skip_blanks b cs in ground (arith, ih, h)

lacks-trim_end : (b : ℕ) (cs : List ℕ) → lacks b cs ≡ true → lacks b (trim_end cs) ≡ true
unfolding trim_end
lacks-trim_end b [] h = refl
lacks-trim_end b (c ∷ cs) h = let ih = lacks-trim_end b cs in ground (arith, ih, h)

lacks-trim_space :
    (b : ℕ) (cs t : List ℕ) → lacks b cs ≡ true → trim_space cs ≡ some (some t) → lacks b t ≡ true
unfolding strip
lacks-trim_space b cs t h e =
    let same = trim_space-strip cs in
    let cut = lacks-trim_end b (skip_blanks cs) (lacks-skip_blanks b cs h) in
    ground (arith, same, cut, e)

lacks-behind :
    (b d : ℕ) (cs t : List ℕ) → lacks b cs ≡ true → behind d cs ≡ some t → lacks b t ≡ true
unfolding behind
lacks-behind b d [] t h e = ground (arith, e)
lacks-behind b d (c ∷ cs) t h e = let ih = lacks-behind b d cs t in ground (arith, ih, h, e)

lacks-until : (b d : ℕ) (cs : List ℕ) → lacks b cs ≡ true → lacks b (until d cs) ≡ true
unfolding until
lacks-until b d [] h = refl
lacks-until b d (c ∷ cs) h = let ih = lacks-until b d cs in ground (arith, ih, h)

insert-all_trimmed :
    (k v : List ℕ) (m : Map)
    → is_trimmed k ≡ true
    → lacks 61 k ≡ true
    → is_trimmed v ≡ true
    → all_trimmed m ≡ true
    → all_trimmed (insert k v m) ≡ true
unfolding insert
insert-all_trimmed k v [] hk hn hv h = ground (arith, hk, hn, hv)
insert-all_trimmed k v ((k', v') ∷ m) hk hn hv h =
    let ih = insert-all_trimmed k v m hk hn hv in ground (arith, ih, hk, hn, hv, h)

abbrev is_loaded : Map → Bool
is_loaded m = is_sorted m && all_trimmed m

trim_space-is_trimmed :
    (cs t : List ℕ) → lacks 35 cs ≡ true → trim_space cs ≡ some (some t) → is_trimmed t ≡ true
trim_space-is_trimmed cs t h e =
    let ends = trim_space-ends cs t e in
    let free = lacks-trim_space 35 cs t h e in ground (arith, ends, free)

insert-is_loaded :
    (k v : List ℕ) (m : Map)
    → is_trimmed k ≡ true
    → lacks 61 k ≡ true
    → is_trimmed v ≡ true
    → is_loaded m ≡ true
    → is_loaded (insert k v m) ≡ true
insert-is_loaded k v m hk hn hv h =
    let sorted = insert-is_sorted k v m in
    let trimmed = insert-all_trimmed k v m hk hn hv in ground (arith, sorted, trimmed, h)

insert_pair-is_loaded :
    (key value : List ℕ) (k v : Option (List ℕ)) (m : Map)
    → trim_space key ≡ some k
    → trim_space value ≡ some v
    → lacks 35 key ≡ true
    → lacks 61 key ≡ true
    → lacks 35 value ≡ true
    → is_loaded m ≡ true
    → is_loaded (insert_pair k v m) ≡ true
insert_pair-is_loaded key value none v m e g hk hn hv h = h
insert_pair-is_loaded key value (some k) none m e g hk hn hv h = h
insert_pair-is_loaded key value (some k) (some v) m e g hk hn hv h =
    insert-is_loaded k v m (trim_space-is_trimmed key k hk e) (lacks-trim_space 61 key k hn e)
      (trim_space-is_trimmed value v hv g) h

-- With a `=`, the entry is what is left of both sides.
pub parse_line-pair :
    (line value : List ℕ) (m : Map)
    → behind 61 line ≡ some value
    → parse_line line m
      ≡ some (insert_pair (some_nonempty (strip (until 61 line))) (some_nonempty (strip value)) m)
unfolding parse_line
parse_line-pair line value m e =
    rw (parse_line, e, trim_space-strip (until 61 line), trim_space-strip value)

parse_line-is_loaded :
    (line : List ℕ) (m m' : Map)
    → lacks 35 line ≡ true
    → parse_line line m ≡ some m'
    → is_loaded m ≡ true
    → is_loaded m' ≡ true
unfolding parse_line
parse_line-is_loaded line m m' h g ok = elim (Option-cases (behind 61 line)) [
  | inl e ↦ ground (arith, e, g, ok)
  | inr (value, e) ↦
      let kept =
        insert_pair-is_loaded (until 61 line) value (some_nonempty (strip (until 61 line)))
          (some_nonempty (strip value)) m (trim_space-strip (until 61 line))
          (trim_space-strip value) (lacks-until 35 61 line h) (until-lacks 61 line)
          (lacks-behind 35 61 line value h e) ok in
      let pair = sym (parse_line-pair line value m e) ∙ g in ground (arith, kept, pair)
]

load_line-is_loaded :
    (buf : List ℕ) (m m' : Map)
    → load_line buf m ≡ some m'
    → is_loaded m ≡ true
    → is_loaded m' ≡ true
unfolding load_line
load_line-is_loaded buf m m' e ok = elim (Option-cases (remove_newline (until 0 buf))) [
  | inl g ↦ ground (arith, e, g)
  | inr (line, g) ↦
      let kept : parse_line (until 35 line) m ≡ some m' → is_loaded m' ≡ true =
        λ q. parse_line-is_loaded (until 35 line) m m' (until-lacks 35 line) q ok in
      ground (arith, kept, e, g, ok)
]

load_lines-is_loaded :
    (bufs : List (List ℕ)) (m m' : Map)
    → load_lines bufs m ≡ some m'
    → is_loaded m ≡ true
    → is_loaded m' ≡ true
unfolding load_lines
load_lines-is_loaded [] m m' e ok = ground (arith, e, ok)
load_lines-is_loaded (buf ∷ bufs) m m' e ok = elim (Option-cases (load_line buf m)) [
  | inl g ↦ ground (arith, e, g)
  | inr (m'', g) ↦
      let rest : load_lines bufs m'' ≡ some m' = ground (arith, e, g) in
      load_lines-is_loaded bufs m'' m' rest (load_line-is_loaded buf m m'' g ok)
]

-- Whatever a file holds: when it can be loaded, the keys of the map are in strictly growing order, no
-- key and no value is empty or has a blank at an end, a `#` is in none of them and a `=` in no key.
pub load_file-is_loaded :
    (memory : Bool) (file : List ℕ) (r : Reader)
    → load_file memory (some file) ≡ some r
    → (is_sorted r.m_config_map ≡ true) × (all_trimmed r.m_config_map ≡ true)
unfolding load_file
load_file-is_loaded memory file r e = elim (Option-cases (load_lines (split 0 file).1 [])) [
  | inl g ↦ ground (arith, e, g)
  | inr (m, g) ↦
      let kept = load_lines-is_loaded (split 0 file).1 [] m g refl in ground (arith, kept, e, g)
]
