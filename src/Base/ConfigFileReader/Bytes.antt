-- ===== src/Base/ConfigFileReader/Bytes.antt =====
-- base/ConfigFileReader.cpp: which files are read without an access outside the buffer.
use learning_tools.Prelude.{
  ℕ, zero, suc, ◌≡◌, refl, Bool, true, false, not, ◌&&◌, ◌==◌, arith, if◌then◌else◌, List, [], ◌∷◌,
  Option-cases, inl, inr, some,
}
use learning_tools.Base.ConfigFileReader.{
  is_empty, until, behind, Map, parse_line, split, remove_newline, load_line, load_lines, load_file,
}
use learning_tools.Base.ConfigFileReader.Strings.{lacks, until-absent}
use learning_tools.Base.ConfigFileReader.Loaded.{parse_line-pair}

abbrev all_strings : List (List ℕ) → Bool
all_strings [] = true
all_strings (buf ∷ bufs) = not (is_empty buf) && lacks 0 buf && all_strings bufs

split-all_strings :
    (room : ℕ) (file : List ℕ)
    → lacks 0 file ≡ true
    → lacks 0 (split room file).0 && all_strings (split room file).1 ≡ true
unfolding split
split-all_strings room [] h = refl
split-all_strings zero (c ∷ cs) h =
    let ih = split-all_strings (if c == 10 then 0 else 254) cs in ground (arith, ih, h)
split-all_strings (suc room) (c ∷ cs) h =
    let ih = split-all_strings (if c == 10 then 0 else room) cs in ground (arith, ih, h)

remove_newline-some :
    (cs : List ℕ) → is_empty cs ≡ false → (line : List ℕ) × (remove_newline cs ≡ some line)
unfolding remove_newline
remove_newline-some [] h = ground (arith, h)
remove_newline-some (c ∷ []) h = elim (Option-cases (remove_newline (c ∷ []))) [
  | inl e ↦ ground (arith, e)
  | inr (line, e) ↦ (line, e)
]
remove_newline-some (c ∷ d ∷ cs) h =
    let (line, e) = remove_newline-some (d ∷ cs) refl in (c ∷ line, rw e)

parse_line-some : (line : List ℕ) (m : Map) → (m' : Map) × (parse_line line m ≡ some m')
unfolding parse_line
parse_line-some line m = elim (Option-cases (behind 61 line)) [
  | inl e ↦ (m, rw (parse_line, e))
  | inr (value, e) ↦ (_, parse_line-pair line value m e)
]

load_line-some :
    (buf : List ℕ) (m : Map)
    → is_empty buf ≡ false
    → lacks 0 buf ≡ true
    → (m' : Map) × (load_line buf m ≡ some m')
unfolding load_line
load_line-some buf m f h =
    let (line, e) = remove_newline-some buf f in
    let whole = until-absent 0 buf h in
    let (m', g) = parse_line-some (until 35 line) m in
    (if is_empty (until 35 line) then m else m', ground (arith, e, whole, g))

load_lines-some :
    (bufs : List (List ℕ)) (m : Map)
    → all_strings bufs ≡ true
    → (m' : Map) × (load_lines bufs m ≡ some m')
unfolding load_lines
load_lines-some [] m h = (m, refl)
load_lines-some (buf ∷ bufs) m h =
    let (m', e) = load_line-some buf m (ground (arith, h)) (ground (arith, h)) in
    let (m'', g) = load_lines-some bufs m' (ground (arith, h)) in (m'', rw (load_lines, e) g)

-- A file without a zero byte is loaded whatever else it holds: no access is outside the buffer, neither where
-- the newline is removed nor where blanks are cut from the end of a key or a value, and the reader that
-- comes out is one that answers.
pub load_file-some :
    (memory : Bool) (file : List ℕ)
    → lacks 0 file ≡ true
    → (m : Map) × (load_file memory (some file)
        ≡ some (record { m_load_ok = true; m_config_map = m }))
unfolding load_file
load_file-some memory file h =
    let strings = split-all_strings 0 file h in
    let (m, e) = load_lines-some (split 0 file).1 [] (ground (arith, strings)) in
    (m, rw (load_file, e))
