-- ===== src/Base/ConfigFileReader/Tests.antt =====
-- The configuration reader of base/ConfigFileReader.cpp at work on a file of three lines.
use learning_tools.Prelude.{
  if◌then◌else◌, ℕ, ◌≡◌, refl, true, false, ◌||◌, ◌&&◌, List, [], ◌∷◌, ◌++◌, length, replicate,
  none, some,
}
use learning_tools.Prelude.Strings.{less}
use learning_tools.Base.ConfigFileReader.{
  is_empty, find, assign, set_value, skip_blanks, scan_end, trim_space, Map, insert, parse_line,
  until, behind, split, remove_newline, load_line, load_lines, Reader, load_file, get_config_name,
  pair_text, Disk, IsDisk, write_pairs, write_file, set_config_value,
}
use learning_tools.Base.ConfigFileReader.Cuts.{all_white, starts_bare, ends_bare, trim_space-cuts}
use learning_tools.Prelude.Int.{pos}
use learning_tools.Base.ConfigFileReader.Keys.{is_sorted}
use learning_tools.Base.ConfigFileReader.RoundTrip.{set_config_value-load_file}
use learning_tools.Base.ConfigFileReader.Loaded.{all_trimmed, load_file-is_loaded}
use learning_tools.Base.ConfigFileReader.Bytes.{load_file-some}

-- " a = 1", "# b", "b=2 ".
abbrev three_lines : List ℕ
three_lines = 32 ∷ 97 ∷ 32 ∷ 61 ∷ 32 ∷ 49 ∷ 10 ∷ 35 ∷ 32 ∷ 98 ∷ 10 ∷ 98 ∷ 61 ∷ 50 ∷ 32 ∷ 10 ∷ []

abbrev two_pairs : Map
two_pairs = (97 ∷ [], 49 ∷ []) ∷ (98 ∷ [], 50 ∷ []) ∷ []

abbrev loaded : Reader
loaded = record { m_load_ok = true; m_config_map = two_pairs }

load_file_example : load_file false (some three_lines) ≡ some loaded
unfolding load_file load_lines load_line split remove_newline parse_line until behind trim_space
    skip_blanks scan_end insert less
load_file_example = refl

load_file-is_loaded_example : (is_sorted two_pairs ≡ true) × (all_trimmed two_pairs ≡ true)
load_file-is_loaded_example = load_file-is_loaded false three_lines loaded load_file_example

load_file-some_example :
    (m : Map) × (load_file true (some three_lines)
      ≡ some (record { m_load_ok = true; m_config_map = m }))
load_file-some_example = load_file-some true three_lines refl

abbrev big_disk : Disk
big_disk = record { opens = true; fwrite = λ i text. (true, text); fclose = λ bytes. (true, bytes) }

big_disk-IsDisk : IsDisk big_disk
big_disk-IsDisk = record { taken = λ i text e. refl; flushed = λ bytes e. refl }

set_config_value-load_file_example :
    let (_, (r', file)) = set_config_value big_disk (98 ∷ []) (51 ∷ []) loaded in
    (load_file false file ≡ some r')
    × (get_config_name (97 ∷ []) r' ≡ (
        if less (97 ∷ []) (98 ∷ []) || less (98 ∷ []) (97 ∷ [])
        then get_config_name (97 ∷ []) loaded
        else some (51 ∷ [])))
unfolding set_config_value write_file write_pairs pair_text less
set_config_value-load_file_example =
    set_config_value-load_file big_disk false (98 ∷ []) (51 ∷ []) (97 ∷ []) loaded big_disk-IsDisk
      refl refl refl refl refl

trim_space-cuts_example :
    let name : List ℕ = 32 ∷ 97 ∷ 13 ∷ [] in
    (front text back : List ℕ) × ((name ≡ front ++ (text ++ back))
      × ((all_white front && all_white back && starts_bare text && ends_bare text ≡ true)
          × (trim_space name ≡ some (if is_empty text then none else some text))))
trim_space-cuts_example = trim_space-cuts (32 ∷ 97 ∷ 13 ∷ [])

-- On a full disk fwrite takes every pair and fclose fails: the result is 0 all the same, and nothing is in the file.
abbrev full_disk : Disk
full_disk = record { opens = true; fwrite = λ i text. (true, text); fclose = λ bytes. (false, []) }

set_config_value_lost :
    let (result, (_, file)) = set_config_value full_disk (98 ∷ []) (51 ∷ []) loaded in
    (result ≡ pos 0) × (file ≡ some [])
unfolding set_config_value write_file write_pairs pair_text set_value find assign less
set_config_value_lost = (refl, refl)

-- A file that begins with a zero byte: the byte before the buffer is read.
load_file-zero : load_file false (some (0 ∷ 10 ∷ [])) ≡ none
unfolding load_file load_lines load_line split remove_newline until
load_file-zero = refl

-- Of a pair that is too long, the end and the newline are missing.
pair_text-long : length (pair_text (97 ∷ []) (replicate 200 49)) ≡ 127
unfolding pair_text
pair_text-long = refl
