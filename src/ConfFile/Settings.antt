-- ===== src/ConfFile/Settings.antt =====
-- The settings that the lines of a file of src/conf.h hold, and those of the lines that
-- `ConfFile::add` puts out.
use fugu_mppt_firmware.Prelude.{
  ℕ, ◌≡◌, ◌≢◌, refl, sym, ap, ◌∙◌, false, if◌then◌else◌, Option, none, some, List, [], ◌∷◌, ◌++◌,
  arith, All, Bytes, bytes_eq, bytes_eq_cases,
}
use mathlib.Core.List.{append-nil}
use fugu_mppt_firmware.ConfFile.{Entries, find, set, hash, equals, new_line}
use fugu_mppt_firmware.ConfFile.Text.{is_white, trim_back, trim, before, behind, split_at, is_empty}
use fugu_mppt_firmware.ConfFile.Trim.{entry_of, put_entry, map_parts, trim-back}
use fugu_mppt_firmware.ConfFile.Lines.{from_lines}

pub find-set :
    (k j v : Bytes) (m : Entries) → find j (set k v m) ≡ (if bytes_eq k j then some v else find j m)
unfolding find set
find-set k j v [] = refl
find-set k j v ((i, w) ∷ m) =
    ground (arith, bytes_eq_cases i k, bytes_eq_cases i j, bytes_eq_cases k j, find-set k j v m)

-- The value of `k` after the line, if it was `d` before.
abbrev pub after : Bytes → Option (Bytes × Bytes) → Option Bytes → Option Bytes
after k none d = d
after k (some (j, v)) d = if bytes_eq j k then some v else d

-- The value of `k` that the lines leave.
unfoldable pub last_value : Bytes → List Bytes → Option Bytes → Option Bytes
last_value k [] d = d
last_value k (l ∷ ls) d = last_value k ls (after k (entry_of l) d)

find-put_entry :
    (k : Bytes) (o : Option (Bytes × Bytes)) (m : Entries)
    → find k (put_entry o m) ≡ after k o (find k m)
find-put_entry k none m = refl
find-put_entry k (some (j, v)) m = find-set j k v m

pub find-from_lines :
    (k : Bytes) (ls : List Bytes) (m : Entries)
    → find k (from_lines ls m) ≡ last_value k ls (find k m)
unfolding from_lines last_value
find-from_lines k [] m = refl
find-from_lines k (l ∷ ls) m =
    find-from_lines k ls (put_entry (entry_of l) m)
    ∙ ap (last_value k ls) (find-put_entry k (entry_of l) m)

pub find-from_empty :
    (k : Bytes) (ls : List Bytes) → find k (from_lines ls []) ≡ last_value k ls none
unfolding find
find-from_empty k ls = find-from_lines k ls []

pub last_value-append :
    (k : Bytes) (ls ms : List Bytes) (d : Option Bytes)
    → last_value k (ls ++ ms) d ≡ last_value k ms (last_value k ls d)
unfolding last_value
last_value-append k [] ms d = refl
last_value-append k (l ∷ ls) ms d = last_value-append k ls ms (after k (entry_of l) d)

-- A key and a value that can stand in a line: no comment, no white space at their ends, and no `=` in
-- the key.
pub record IsPlain (e : Bytes × Bytes) : Type 0 where
  pub key_open : All (λ c. c ≢ hash) e.0
  pub key_one : All (λ c. c ≢ equals) e.0
  pub val_open : All (λ c. c ≢ hash) e.1
  pub key_trimmed : trim e.0 ≡ e.0
  pub val_trimmed : trim e.1 ≡ e.1

before-append : (x : ℕ) (a b : Bytes) → All (λ c. c ≢ x) a → before x (a ++ b) ≡ a ++ before x b
unfolding before
before-append x [] b h = refl
before-append x (c ∷ a) b h = ground (arith, h.0, before-append x a b h.1)

split-append : (x : ℕ) (a b : Bytes) → All (λ c. c ≢ x) a → split_at x (a ++ x ∷ b) ≡ some (a, b)
unfolding split_at
split-append x [] b h = ground arith
split-append x (c ∷ a) b h = ground (arith, h.0, split-append x a b h.1)

trim_back_blanks : (s : Bytes) → trim_back (s ++ 32 ∷ 32 ∷ []) ≡ trim_back s
unfolding trim_back is_white
trim_back_blanks [] = refl
trim_back_blanks (c ∷ s) = rw (trim_back_blanks s) refl

-- What is before the comment of the line's new tail.
tail_of : Bytes → Bytes
tail_of comment = before hash (if is_empty comment then [] else 32 ∷ 32 ∷ comment)

tail_of-comment : (c : ℕ) (s : Bytes) → before hash (c ∷ s) ≡ [] → tail_of (c ∷ s) ≡ 32 ∷ 32 ∷ []
unfolding tail_of
tail_of-comment c s e =
    before-append hash (32 ∷ 32 ∷ []) (c ∷ s) (omega arith) ∙ ap (λ t. 32 ∷ 32 ∷ t) e

trim_blanks : (s : Bytes) → trim (s ++ 32 ∷ 32 ∷ []) ≡ trim s
trim_blanks s = sym (trim-back (s ++ 32 ∷ 32 ∷ [])) ∙ ap trim (trim_back_blanks s) ∙ trim-back s

trim-tail :
    (val comment : Bytes)
    → (is_empty comment ≡ false → before hash comment ≡ [])
    → trim (val ++ tail_of comment) ≡ trim val
trim-tail val [] h = ap trim (unfold tail_of before in append-nil val)
trim-tail val (c ∷ s) h = rw (tail_of-comment c s (h refl)) (trim_blanks val)

behind-before :
    (line : Bytes) → is_empty (behind hash line) ≡ false → before hash (behind hash line) ≡ []
unfolding before behind
behind-before [] h = cc
behind-before (c ∷ s) h = ground (arith, behind-before s)

split-code :
    (key val rest : Bytes)
    → IsPlain (key, val)
    → split_at equals (before hash (key ++ equals ∷ (val ++ rest)))
      ≡ some (key, val ++ before hash rest)
split-code key val rest plain =
    rw
      (
        before-append hash key (equals ∷ (val ++ rest)) plain.key_open,
        before-append hash (equals ∷ []) (val ++ rest) (omega arith),
        before-append hash val rest plain.val_open,
      )
      (split-append equals key (val ++ before hash rest) plain.key_one)

pub entry-new_line :
    (key val line : Bytes)
    → IsPlain (key, val)
    → entry_of (new_line key val (behind hash line)) ≡ some (key, val)
unfolding entry_of tail_of
entry-new_line key val line plain =
    let comment = behind hash line in
    ap (map_parts trim trim)
      (split-code key val (if is_empty comment then [] else 32 ∷ 32 ∷ comment) plain)
    ∙ cc (plain.key_trimmed, plain.val_trimmed, trim-tail val comment (behind-before line))

pub entry-appended :
    (key val : Bytes) → IsPlain (key, val) → entry_of (key ++ equals ∷ val) ≡ some (key, val)
unfolding entry_of
entry-appended key val plain =
    let read : split_at equals (before hash (key ++ equals ∷ val)) ≡ some (key, val) =
      unfold before in rw append-nil at (split-code key val [] plain) in
    rw read (cc (plain.key_trimmed, plain.val_trimmed))
