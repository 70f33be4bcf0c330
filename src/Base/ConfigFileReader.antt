-- ===== src/Base/ConfigFileReader.antt =====
-- base/ConfigFileReader.cpp. A char is its byte; a string ends before its first zero byte. A result
-- `none` of `load` stands for an access outside the buffer.
pub mod Strings
pub mod Trim
pub mod Cuts
pub mod Lines
pub mod Keys
pub mod Texts
pub mod RoundTrip
pub mod Loaded
pub mod Bytes
mod Tests
use learning_tools.Prelude.{
  ℕ, zero, suc, ◌-◌, ◌<◌, ◌≡◌, Bool, true, false, not, ◌&&◌, ◌||◌, ◌==◌, ltb, leb, if◌then◌else◌,
  List, [], ◌∷◌, ◌++◌, length, take, drop, Option, none, some,
}
use learning_tools.Prelude.Strings.{less}
use learning_tools.Prelude.Int.{ℤ, pos, negsuc}

abbrev pub is_blank : ℕ → Bool
is_blank c = c == 32 || c == 9 || c == 13

abbrev pub is_empty : List ℕ → Bool
is_empty [] = true
is_empty (c ∷ cs) = false

unfoldable pub skip_blanks : List ℕ → List ℕ
skip_blanks [] = []
skip_blanks (c ∷ cs) = if is_blank c then skip_blanks cs else c ∷ cs

-- The scan from the end, which cuts the blanks there; `none` is an access before the string: all of it is blank.
unfoldable pub scan_end : List ℕ → Option (List ℕ)
scan_end [] = none
scan_end (c ∷ cs) = elim (scan_end cs) [
  | none ↦ if is_blank c then none else some (c ∷ [])
  | some kept ↦ some (c ∷ kept)
]

-- The pointer that it returns is `start` into the string that was cut at its end; `some none` is NULL, and
-- `none` an access outside the string.
unfoldable pub trim_space : List ℕ → Option (Option (List ℕ))
unfolding skip_blanks scan_end
trim_space name =
    let start = length name - length (skip_blanks name) in
    if length (skip_blanks name) == 0 then some none else (elim (scan_end name) [
      | none ↦ none
      | some ended ↦ if leb (length ended) start then some none else some (some (drop start ended))
    ])

-- `strchr`: what is before the first such byte, and what is behind it.
unfoldable pub until : ℕ → List ℕ → List ℕ
until b [] = []
until b (c ∷ cs) = if c == b then [] else c ∷ until b cs

unfoldable pub behind : ℕ → List ℕ → Option (List ℕ)
behind b [] = none
behind b (c ∷ cs) = if c == b then some cs else behind b cs

-- std::map: its entries in the order of their keys.
abbrev pub Map : Type 0
Map = List (List ℕ × List ℕ)

unfoldable pub insert : List ℕ → List ℕ → Map → Map
unfolding less
insert k v [] = (k, v) ∷ []
insert k v ((k', v') ∷ m) =
    let rest = insert k v m in
    if less k k' then (k, v) ∷ (k', v') ∷ m else if less k' k then (k', v') ∷ rest else (k', v') ∷ m

unfoldable pub find : List ℕ → Map → Option (List ℕ)
unfolding less
find k [] = none
find k ((k', v') ∷ m) = if less k k' then none else if less k' k then find k m else some v'

-- `it->second = value`, where the key is there.
unfoldable pub assign : List ℕ → List ℕ → Map → Map
unfolding less
assign k v [] = []
assign k v ((k', v') ∷ m) =
    let rest = assign k v m in
    if less k k' then (k', v') ∷ m else if less k' k then (k', v') ∷ rest else (k', v) ∷ m

-- The first half of `setConfigValue`.
unfoldable pub set_value : List ℕ → List ℕ → Map → Map
unfolding find insert assign
set_value name value m = elim (find name m) [
  | none ↦ insert name value m
  | some _ ↦ assign name value m
]

abbrev insert_pair : Option (List ℕ) → Option (List ℕ) → Map → Map
insert_pair none value m = m
insert_pair (some key) none m = m
insert_pair (some key) (some value) m = insert key value m

abbrev insert_trimmed : Option (Option (List ℕ)) → Option (Option (List ℕ)) → Map → Option Map
insert_trimmed none value m = none
insert_trimmed (some key) none m = none
insert_trimmed (some key) (some value) m = some (insert_pair key value m)

unfoldable pub parse_line : List ℕ → Map → Option Map
unfolding trim_space until behind insert
parse_line line m = elim (behind 61 line) [
  | none ↦ some m
  | some value ↦ insert_trimmed (trim_space (until 61 line)) (trim_space value) m
]

-- What the calls of `fgets` with 256 bytes return: each takes at most 255 bytes, up to a newline. `room` is
-- what is left for the current line, and the result begins with the rest of that line.
unfoldable pub split : ℕ → List ℕ → List ℕ × List (List ℕ)
split room [] = ([], [])
split zero (c ∷ cs) =
    let (line, lines) = split (if c == 10 then 0 else 254) cs in ([], (c ∷ line) ∷ lines)
split (suc room) (c ∷ cs) =
    let (line, lines) = split (if c == 10 then 0 else room) cs in (c ∷ line, lines)

-- `buf[len - 1]` of an empty string is outside the buffer.
unfoldable pub remove_newline : List ℕ → Option (List ℕ)
remove_newline [] = none
remove_newline (c ∷ []) = if c == 10 then some [] else some (c ∷ [])
remove_newline (c ∷ d ∷ cs) = elim (remove_newline (d ∷ cs)) [
  | none ↦ none
  | some line ↦ some (c ∷ line)
]

unfoldable pub load_line : List ℕ → Map → Option Map
unfolding until remove_newline parse_line
load_line buf m = elim (remove_newline (until 0 buf)) [
  | none ↦ none
  | some line ↦ let line' = until 35 line in if is_empty line' then some m else parse_line line' m
]

unfoldable pub load_lines : List (List ℕ) → Map → Option Map
unfolding load_line
load_lines [] m = some m
load_lines (buf ∷ bufs) m = elim (load_line buf m) [ none ↦ none | some m' ↦ load_lines bufs m' ]

pub record Reader : Type 0 where
  pub m_load_ok : Bool
  pub m_config_map : Map

-- The constructor. No file to open leaves `m_load_ok` as it was in the memory.
unfoldable pub load_file : Bool → Option (List ℕ) → Option Reader
unfolding load_lines split
load_file memory none = some (record { m_load_ok = memory; m_config_map = [] })
load_file memory (some file) = elim (load_lines (split 0 file).1 []) [
  | none ↦ none
  | some m ↦ some (record { m_load_ok = true; m_config_map = m })
]

unfoldable pub get_config_name : List ℕ → Reader → Option (List ℕ)
unfolding find
get_config_name name r = if not r.m_load_ok then none else find name r.m_config_map

-- What snprintf leaves in the array of 128 bytes.
unfoldable pub pair_text : List ℕ → List ℕ → List ℕ
pair_text key value = take 127 (key ++ 61 ∷ value ++ 10 ∷ [])

-- fopen(3) for writing; fwrite(3): whether it returned 1, and what it took of the text; and fclose(3), which
-- returns whether all went well, and what then is in the file of the bytes that were taken.
pub record Disk : Type 0 where
  pub opens : Bool
  pub fwrite : ℕ → List ℕ → Bool × List ℕ
  pub fclose : List ℕ → Bool × List ℕ

-- fwrite(3): a full return means that all was taken. fclose(3): a return without an error means that what
-- was taken is in the file.
pub record IsDisk (d : Disk) : Type 0 where
  pub taken : (i : ℕ) (text : List ℕ) → (d.fwrite i text).0 ≡ true → (d.fwrite i text).1 ≡ text
  pub flushed : (bytes : List ℕ) → (d.fclose bytes).0 ≡ true → (d.fclose bytes).1 ≡ bytes

module _ (d : Disk) where
  -- The result, and the bytes that were taken; `i` counts the calls.
  unfoldable pub write_pairs : ℕ → Map → ℤ × List ℕ
  unfolding pair_text
  write_pairs i [] = (pos 0, [])
  write_pairs i ((key, value) ∷ m) =
      let rest = write_pairs (suc i) m in
      let (ok, text) = d.fwrite i (pair_text key value) in
      if ok then (rest.0, text ++ rest.1) else (negsuc 0, text)

  -- A file that could not be opened is `none`: it stays. What fclose(3) returns is not looked at.
  unfoldable pub write_file : Map → ℤ × Option (List ℕ)
  unfolding write_pairs
  write_file m =
      let (ret, bytes) = write_pairs 0 m in
      if d.opens then (ret, some (d.fclose bytes).1) else (negsuc 0, none)

  unfoldable pub set_config_value : List ℕ → List ℕ → Reader → ℤ × (Reader × Option (List ℕ))
  unfolding set_value write_file
  set_config_value name value r =
      let m = set_value name value r.m_config_map in
      let (ret, file) = write_file m in
      if not r.m_load_ok
      then (negsuc 0, (r, none))
      else (ret, (record r { m_config_map = m }, file))
