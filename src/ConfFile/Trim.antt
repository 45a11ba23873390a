-- ===== src/ConfFile/Trim.antt =====
-- How `trim`, the search for a byte and the ends of lines of src/conf.h go together: the setting that a
-- line holds does not depend on the white space at its ends.
use fugu_mppt_firmware.Prelude.{
  ℕ, ◌≡◌, refl, ap, ◌∙◌, false, if◌then◌else◌, Option, none, some, [], ◌∷◌, arith, Bytes,
}
use fugu_mppt_firmware.ConfFile.{hash, equals, parse_line, set, Entries}
use fugu_mppt_firmware.ConfFile.Text.{
  is_white, is_empty, trim_front, trim_back, trim, before, split_at, c_string, strip_newline,
}

trim_front_idem : (s : Bytes) → trim_front (trim_front s) ≡ trim_front s
unfolding trim_front
trim_front_idem [] = refl
trim_front_idem (c ∷ s) = ground (arith, trim_front_idem s)

trim_back_idem : (s : Bytes) → trim_back (trim_back s) ≡ trim_back s
unfolding trim_back
trim_back_idem [] = refl
trim_back_idem (c ∷ s) = ground (arith, trim_back_idem s)

front-back : (s : Bytes) → trim_front (trim_back s) ≡ trim_back (trim_front s)
unfolding trim_front trim_back
front-back [] = refl
front-back (c ∷ s) = ground (arith, front-back s)

trim-front : (s : Bytes) → trim (trim_front s) ≡ trim s
unfolding trim
trim-front s = ap trim_back (trim_front_idem s)

pub trim-back : (s : Bytes) → trim (trim_back s) ≡ trim s
unfolding trim
trim-back s = cc (front-back s, front-back (trim_back s), trim_back_idem s)

pub trim_idem : (s : Bytes) → trim (trim s) ≡ trim s
unfolding trim
trim_idem s = cc (front-back (trim_front s), trim_front_idem s, trim_back_idem (trim_front s))

abbrev pub map_parts :
    (Bytes → Bytes) → (Bytes → Bytes) → Option (Bytes × Bytes) → Option (Bytes × Bytes)
map_parts f g none = none
map_parts f g (some (a, b)) = some (f a, g b)

map_parts-front-back :
    (o : Option (Bytes × Bytes))
    → map_parts (λ a. a) trim_back (map_parts trim_front (λ b. b) o)
      ≡ map_parts trim_front trim_back o
map_parts-front-back none = refl
map_parts-front-back (some (a, b)) = refl

map_parts-back :
    (o : Option (Bytes × Bytes))
    → map_parts trim trim (map_parts (λ a. a) trim_back o) ≡ map_parts trim trim o
map_parts-back none = refl
map_parts-back (some (a, b)) = rw (trim-back b) refl

module _ (x : ℕ) (solid : is_white x ≡ false) where
  split-front :
      (s : Bytes) → split_at x (trim_front s) ≡ map_parts trim_front (λ b. b) (split_at x s)
  unfolding trim_front split_at
  split-front [] = refl
  split-front (c ∷ s) = ground (arith, split-front s)

  split-back : (s : Bytes) → split_at x (trim_back s) ≡ map_parts (λ a. a) trim_back (split_at x s)
  unfolding trim_back split_at
  split-back [] = refl
  split-back (c ∷ s) = ground (arith, split-back s)

  pub split-trim : (s : Bytes) → split_at x (trim s) ≡ map_parts trim_front trim_back (split_at x s)
  unfolding trim
  split-trim s = rw (split-back (trim_front s), split-front s) (map_parts-front-back (split_at x s))

-- The setting in a line.
unfoldable pub entry_of : Bytes → Option (Bytes × Bytes)
entry_of line = map_parts trim trim (split_at equals (before hash line))

abbrev pub put_entry : Option (Bytes × Bytes) → Entries → Entries
put_entry none m = m
put_entry (some (k, v)) m = set k v m

abbrev parse_parts : Bytes → Entries → Entries
parse_parts line m =
    if is_empty line
    then m
    else elim (split_at equals line) [ none ↦ m | some (k, v) ↦ set (trim k) (trim v) m ]

parse_parts_lem :
    (line : Bytes) (o : Option (Bytes × Bytes)) (m : Entries)
    → split_at equals line ≡ map_parts trim_front trim_back o
    → parse_parts line m ≡ put_entry (map_parts trim trim o) m
parse_parts_lem [] none m e = refl
parse_parts_lem [] (some (a, b)) m e = unfold split_at in cc e
parse_parts_lem (c ∷ s) none m e = rw e refl
parse_parts_lem (c ∷ s) (some (a, b)) m e = rw (e, trim-front a, trim-back b) refl

pub parse_line_lem :
    (buf : Bytes) (m : Entries) → parse_line buf m ≡ put_entry (entry_of (c_string buf)) m
unfolding parse_line entry_of
parse_line_lem buf m =
    let code = before hash (c_string buf) in
    parse_parts_lem (trim code) (split_at equals code) m
      (split-trim equals (unfold is_white in refl) code)

entry-back :
    (s t : Bytes) → trim_back (before hash s) ≡ trim_back (before hash t) → entry_of s ≡ entry_of t
unfolding entry_of
entry-back s t e =
    let solid : is_white equals ≡ false = unfold is_white in refl in
    let back = λ (u : Bytes). map_parts-back (split_at equals u) in
    let same = λ (u : Bytes). ap (map_parts trim trim) (split-back equals solid u) ∙ back u in
    cc (same (before hash s), same (before hash t), e)

before-strip : (s : Bytes) → trim_back (before hash (strip_newline s)) ≡ trim_back (before hash s)
unfolding trim_back before strip_newline is_white
before-strip [] = refl
before-strip (c ∷ s) = ground (arith, before-strip s)

pub entry-strip : (s : Bytes) → entry_of (strip_newline s) ≡ entry_of s
entry-strip s = entry-back (strip_newline s) s (before-strip s)
