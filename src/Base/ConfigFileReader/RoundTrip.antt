-- ===== src/Base/ConfigFileReader/RoundTrip.antt =====
-- base/ConfigFileReader.cpp: a value that was set is there when the file is loaded again.
use learning_tools.Prelude.{
  ℕ, ◌≡◌, refl, sym, ◌∙◌, ap, Bool, true, ◌||◌, arith, if◌then◌else◌, List, [], ◌∷◌, some,
}
use learning_tools.Prelude.Int.{pos}
use learning_tools.Prelude.Strings.{less, less_tri}
use learning_tools.Base.ConfigFileReader.{
  find, Map, insert, assign, set_value, Reader, load_file, get_config_name, Disk, IsDisk,
  write_pairs, write_file, set_config_value,
}
use learning_tools.Base.ConfigFileReader.Keys.{
  is_sorted, set_value-is_sorted, find-set_value, find-set_value_ne,
}
use learning_tools.Base.ConfigFileReader.Texts.{
  is_clean, all_clean, write_pairs-texts, load_lines-texts,
}

insert-all_clean :
    (k v : List ℕ) (m : Map)
    → is_clean k v ≡ true
    → all_clean m ≡ true
    → all_clean (insert k v m) ≡ true
unfolding insert
insert-all_clean k v [] c h = ground (arith, c)
insert-all_clean k v ((k', v') ∷ m) c h =
    let ih = insert-all_clean k v m c in ground (arith, ih, c, h)

assign-all_clean :
    (k v : List ℕ) (m : Map)
    → is_clean k v ≡ true
    → all_clean m ≡ true
    → all_clean (assign k v m) ≡ true
unfolding assign
assign-all_clean k v [] c h = refl
assign-all_clean k v ((k', v') ∷ m) c h =
    let ih = assign-all_clean k v m c in let same = less_tri k k' in ground (arith, ih, same, c, h)

set_value-all_clean :
    (k v : List ℕ) (m : Map)
    → is_clean k v ≡ true
    → all_clean m ≡ true
    → all_clean (set_value k v m) ≡ true
unfolding set_value
set_value-all_clean k v m c h =
    let inserted = insert-all_clean k v m c h in
    let assigned = assign-all_clean k v m c h in ground (arith, inserted, assigned)

-- A file that was written and closed without an error holds the map.
write_file-load_file :
    (d : Disk) (memory : Bool) (m : Map)
    → IsDisk d
    → all_clean m ≡ true
    → is_sorted m ≡ true
    → (write_file d m).0 ≡ pos 0
    → (d.fclose (write_pairs d 0 m).1).0 ≡ true
    → load_file memory (write_file d m).1 ≡ some (record { m_load_ok = true; m_config_map = m })
unfolding write_file load_file
write_file-load_file d memory m ok c s e closed =
    let text = write_pairs-texts d 0 m ok c in
    let file = ok.flushed (write_pairs d 0 m).1 closed in
    let loaded = load_lines-texts [] m c s in ground (arith, text, file, loaded, e)

set_config_value-loads :
    (d : Disk) (name value : List ℕ) (r : Reader)
    → (set_config_value d name value r).0 ≡ pos 0
    → r.m_load_ok ≡ true
unfolding set_config_value
set_config_value-loads d name value r e = ground (arith, e)

set_config_value-write_file :
    (d : Disk) (name value : List ℕ) (r : Reader)
    → r.m_load_ok ≡ true
    → let m = set_value name value r.m_config_map in
      set_config_value d name value r
      ≡ ((write_file d m).0, (record r { m_config_map = m }, (write_file d m).1))
unfolding set_config_value
set_config_value-write_file d name value r e = ground (arith, e)

find-set_value_at :
    (name value other : List ℕ) (m : Map)
    → other ≡ name
    → find other (set_value name value m) ≡ some value
find-set_value_at name value other m h = rw h (find-set_value name value m)

get-set_value :
    (name value other : List ℕ) (r : Reader)
    → r.m_load_ok ≡ true
    → get_config_name other (record r { m_config_map = set_value name value r.m_config_map })
      ≡ (if less other name || less name other then get_config_name other r else some value)
unfolding get_config_name
get-set_value name value other r e =
    let others = find-set_value_ne other name value r.m_config_map in
    let same = less_tri other name in
    let found_here = find-set_value_at name value other r.m_config_map in
    ground (arith, found_here, others, same, e)

-- When the name, the value and all entries are words (no blank at an end, no newline, `#` or zero
-- byte), no name has a `=`, each pair has at most 125 bytes, and the keys are in order: a
-- `setConfigValue` that returns 0, and whose fclose, which the code does not look at, reports no error, leaves a file from which a new reader loads exactly the map of the
-- old one, which has the value under that name, and under any other what it had.
pub set_config_value-load_file :
    (d : Disk) (memory : Bool) (name value other : List ℕ) (r : Reader)
    → IsDisk d
    → is_clean name value ≡ true
    → all_clean r.m_config_map ≡ true
    → is_sorted r.m_config_map ≡ true
    → (set_config_value d name value r).0 ≡ pos 0
    → (d.fclose (write_pairs d 0 (set_value name value r.m_config_map)).1).0 ≡ true
    → let (_, (r', file)) = set_config_value d name value r in
      (load_file memory file ≡ some r')
      × (get_config_name other r'
          ≡ (if less other name || less name other then get_config_name other r else some value))
set_config_value-load_file d memory name value other r ok c h s e closed =
    let m = set_value name value r.m_config_map in
    let loads = set_config_value-loads d name value r e in
    let result = set_config_value-write_file d name value r loads in
    let clean = set_value-all_clean name value r.m_config_map c h in
    let sorted = set_value-is_sorted name value r.m_config_map s in
    let reads =
      write_file-load_file d memory m ok clean sorted (sym (ap (λ x. x.0) result) ∙ e) closed in
    let same = ap (λ b. some (record { m_load_ok = b; m_config_map = m })) (sym loads) in
    rw result (reads ∙ same, get-set_value name value other r loads)
