-- ===== src/ConfFile/Removal.antt =====
-- `ConfFile::remove` of src/conf.h as the removal of a key from a map.
use fugu_mppt_firmware.Prelude.{
  ◌≡◌, refl, sym, ap, ◌∙◌, true, false, if◌then◌else◌, Option, none, some, List, [], ◌∷◌, inl, inr,
  ◌⊎◌, arith, Bool-cases, All, Bytes, bytes_eq, bytes_eq_cases,
}
use fugu_mppt_firmware.ConfFile.{
  ConfFile, Entries, find, read_lines, load, file_text, complete, returned, is_key_of, is_line_of,
  without, has_line, erase, remove, hash, equals, write_file,
}
use fugu_mppt_firmware.ConfFile.Text.{trim, before, split_at}
use fugu_mppt_firmware.ConfFile.Trim.{entry_of, map_parts}
use fugu_mppt_firmware.ConfFile.Lines.{IsLine, load-file_text, load-read_lines}
use fugu_mppt_firmware.ConfFile.Settings.{after, last_value, find-from_empty}

module _ (key k : Bytes) where
  parts-own :
      (parts : Option (Bytes × Bytes)) (d : Option Bytes)
      → is_key_of key parts ≡ true
      → after k (map_parts trim trim parts) d ≡ d ⊎ (bytes_eq key k ≡ true)
  parts-own none d h = inl refl
  parts-own (some (a, b)) d h =
      ground (arith, bytes_eq_cases (trim a) key, bytes_eq_cases (trim a) k)

  parts-others :
      (parts : Option (Bytes × Bytes)) (d : Option Bytes)
      → is_key_of key parts ≡ false
      → bytes_eq key k ≡ true
      → after k (map_parts trim trim parts) d ≡ d
  parts-others none d h e = refl
  parts-others (some (a, b)) d h e =
      ground (arith, bytes_eq_cases (trim a) key, bytes_eq_cases key k)

  without-key :
      (ls : List Bytes) (d : Option Bytes)
      → bytes_eq key k ≡ true
      → last_value k (without key ls) d ≡ d
  unfolding without last_value is_line_of entry_of
  without-key [] d e = refl
  without-key (l ∷ ls) d e = elim (Bool-cases (is_line_of key l)) [
    | inl own ↦ rw own (without-key ls d e)
    | inr other ↦
        rw other (without-key ls _ e ∙ parts-others (split_at equals (before hash l)) d other e)
  ]

  without-others :
      (ls : List Bytes) (d : Option Bytes)
      → bytes_eq key k ≡ false
      → last_value k (without key ls) d ≡ last_value k ls d
  unfolding without last_value is_line_of entry_of
  without-others [] d e = refl
  without-others (l ∷ ls) d e = elim (Bool-cases (is_line_of key l)) [
    | inl own ↦ elim (parts-own (split_at equals (before hash l)) d own) [
      | inl kept ↦ rw own (without-others ls d e ∙ ap (last_value k ls) (sym kept))
      | inr same ↦ cc (same, e)
    ]
    | inr other ↦ rw other (without-others ls _ e)
  ]

  find-erase : (m : Entries) → find k (erase key m) ≡ (if bytes_eq key k then none else find k m)
  unfolding find erase
  find-erase [] = ground arith
  find-erase ((j, v) ∷ m) =
      ground (arith, bytes_eq_cases j key, bytes_eq_cases j k, bytes_eq_cases key k, find-erase m)

  last_value-without :
      (ls : List Bytes)
      → last_value k (without key ls) none ≡ (if bytes_eq key k then none else last_value k ls none)
  last_value-without ls = elim (Bool-cases (bytes_eq key k)) [
    | inl same ↦ rw same (without-key ls none same)
    | inr other ↦ rw other (without-others ls none other)
  ]

without-absent : (key : Bytes) (ls : List Bytes) → has_line key ls ≡ false → without key ls ≡ ls
unfolding without has_line
without-absent key [] h = refl
without-absent key (l ∷ ls) h = ground (arith, without-absent key ls)

-- The lines that are kept give the settings of all other keys.
removed-lines :
    (key k : Bytes) (file : Option Bytes)
    → All IsLine (without key (read_lines file))
    → find k (load (some (file_text (without key (read_lines file))))).entries
      ≡ (if bytes_eq key k then none else find k (load file).entries)
removed-lines key k file whole =
    let lines = read_lines file in
    ap (find k) (load-file_text (without key lines) whole)
    ∙ find-from_empty k (without key lines)
    ∙ last_value-without key k lines
    ∙ ap (λ o. if bytes_eq key k then none else o)
        (sym (ap (find k) (load-read_lines file) ∙ find-from_empty k lines))

absent-lines :
    (key k : Bytes) (file : Option Bytes)
    → has_line key (read_lines file) ≡ false
    → find k (load file).entries ≡ (if bytes_eq key k then none else find k (load file).entries)
absent-lines key k file absent =
    let lines = read_lines file in
    let old : find k (load file).entries ≡ last_value k lines none =
      ap (find k) (load-read_lines file) ∙ find-from_empty k lines in
    old
    ∙ ap (λ ls. last_value k ls none) (sym (without-absent key lines absent))
    ∙ last_value-without key k lines
    ∙ ap (λ o. if bytes_eq key k then none else o) (sym old)

-- After `remove`, if the file takes all writes and the lines that stay are whole when read: the key has
-- no value, in the file as in memory, all other keys have what they had there, and the result says
-- whether a line of the file had the key.
pub load-remove :
    (key k : Bytes) (c : ConfFile) (file : Option Bytes)
    → All IsLine (without key (read_lines file))
    → let r = remove key complete c file in
      (r.outcome ≡ returned (has_line key (read_lines file)))
      × (find k (load r.file).entries
          ≡ (if bytes_eq key k then none else find k (load file).entries))
      × (find k r.conf.entries ≡ (if bytes_eq key k then none else find k c.entries))
unfolding remove write_file
load-remove key k c file whole = elim (Bool-cases (has_line key (read_lines file))) [
  | inl has ↦ rw has (refl, removed-lines key k file whole, find-erase key k c.entries)
  | inr absent ↦ rw absent (refl, absent-lines key k file absent, find-erase key k c.entries)
]
