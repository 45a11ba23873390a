-- ===== src/ConfFile.antt =====
-- `class ConfFile` of src/conf.h: the settings in a file of lines `key=value`, in memory and in the
-- file. A file is the list of its bytes, or `none` if there is none.
pub mod Text
pub mod Trim
pub mod Lines
pub mod Settings
pub mod Rewrite
pub mod Update
pub mod Removal
pub mod Numbers
pub mod Decimal
pub mod Tests
use fugu_mppt_firmware.Prelude.{
  ℕ, zero, suc, Bool, true, false, not, ◌==◌, ltb, if◌then◌else◌, Option, none, some, List, [], ◌∷◌,
  ◌++◌, map, length, take, ◌>>=◌, Bytes, bytes_eq,
}
use fugu_mppt_firmware.ConfFile.Text.{
  newline, trim, is_empty, before, behind, split_at, gets, c_string, strip_newline,
}

abbrev pub Entries : Type 0
Entries = List (Bytes × Bytes)

pub record ConfFile : Type 0 where
  pub entries : Entries  -- `_map`
  pub accessed : List Bytes

-- `find_`
unfoldable pub find : Bytes → Entries → Option Bytes
find k [] = none
find k ((key, v) ∷ m) = let rest = find k m in if bytes_eq key k then some v else rest

-- `set_`
unfoldable pub set : Bytes → Bytes → Entries → Entries
set k v [] = (k, v) ∷ []
set k v ((key, w) ∷ m) =
    let rest = set k v m in if bytes_eq key k then (key, v) ∷ m else (key, w) ∷ rest

abbrev pub set_all : Entries → Entries → Entries
set_all [] m = m
set_all ((k, v) ∷ vs) m = set_all vs (set k v m)

unfoldable pub contains : Bytes → List Bytes → Bool
contains k [] = false
contains k (a ∷ keys) = let rest = contains k keys in if bytes_eq a k then true else rest

unfoldable pub mark_accessed : Bytes → ConfFile → ConfFile
mark_accessed k c =
    if contains k c.accessed then c else record c { accessed = c.accessed ++ k ∷ [] }

abbrev pub hash : ℕ
hash = b'#'

abbrev pub equals : ℕ
equals = b'='

-- One round of the constructor's loop, on what `fgets` has read.
unfoldable pub parse_line : Bytes → Entries → Entries
parse_line buf m =
    let line = trim (before hash (c_string buf)) in
    if is_empty line
    then m
    else elim (split_at equals line) [ none ↦ m | some (k, v) ↦ set (trim k) (trim v) m ]

unfoldable pub parse_lines : List Bytes → Entries → Entries
parse_lines [] m = m
parse_lines (l ∷ ls) m = parse_lines ls (parse_line l m)

unfoldable pub load : Option Bytes → ConfFile
load none = record { entries = []; accessed = [] }
load (some text) = record { entries = parse_lines (gets 255 text) []; accessed = [] }

-- The lines that `add` and `remove` read, without their ends.
unfoldable pub read_lines : Option Bytes → List Bytes
read_lines none = []
read_lines (some text) = map (λ buf. strip_newline (c_string buf)) (gets 255 text)

-- `add`'s new text of a line.
abbrev pub new_line : (key val comment : Bytes) → Bytes
new_line key val comment =
    key ++ equals ∷ (val ++ (if is_empty comment then [] else 32 ∷ 32 ∷ comment))

-- `add` on a line with a key, which it has found among the values or not: what it puts out, and the
-- keys written so far, whose order is not read. `none` is the exception.
unfoldable pub update_found :
    (overwrite : Bool) (key line : Bytes) (found : Option Bytes) (written : List Bytes)
    → Option (List Bytes × List Bytes)
update_found overwrite key line none written = some (line ∷ [], written)
update_found overwrite key line (some val) written =
    if not overwrite
    then none
    else if contains key written
    then some ([], written)
    else some (new_line key val (behind hash line) ∷ [], key ∷ written)

abbrev pub update_parts :
    (values : Entries) (overwrite : Bool) (line : Bytes) (parts : Option (Bytes × Bytes))
    → List Bytes
    → Option (List Bytes × List Bytes)
update_parts values overwrite line none written = some (line ∷ [], written)
update_parts values overwrite line (some (a, _)) written =
    update_found overwrite (trim a) line (find (trim a) values) written

unfoldable pub update_line :
    (values : Entries) (overwrite : Bool) (line : Bytes) (written : List Bytes)
    → Option (List Bytes × List Bytes)
update_line values overwrite line written =
    update_parts values overwrite line (split_at equals (before hash line)) written

unfoldable pub update_lines :
    (values : Entries) (overwrite : Bool) (lines written : List Bytes)
    → Option (List Bytes × List Bytes)
update_lines values overwrite [] written = some ([], written)
update_lines values overwrite (line ∷ lines) written =
    update_line values overwrite line written
    >>= (λ r. update_lines values overwrite lines r.1 >>= (λ rest. some (r.0 ++ rest.0, rest.1)))

-- The values whose keys the file did not have.
unfoldable pub append_new : Entries → List Bytes → List Bytes
append_new [] written = []
append_new ((key, val) ∷ values) written =
    let rest = append_new values written in
    if contains key written then rest else (key ++ equals ∷ val) ∷ rest

unfoldable pub rewritten : Entries → Bool → List Bytes → Option (List Bytes)
rewritten values overwrite lines =
    update_lines values overwrite lines [] >>= (λ r. some (r.0 ++ append_new values r.1))

-- `out` as it is written.
unfoldable pub file_text : List Bytes → Bytes
file_text [] = []
file_text (l ∷ ls) = l ++ newline ∷ file_text ls

-- How the file takes the writes: it does not open; it takes a number of bytes and then fails; or it
-- takes them all.
pub data Writing : Type 0 where
  cannot_open complete : Writing
  stopped : ℕ → Writing

-- The file after `fopen(path, "w")` and the writes, and whether all went well.
unfoldable pub write_file : Writing → Bytes → Option Bytes → Option Bytes × Bool
write_file cannot_open text file = (file, false)
write_file complete text file = (some text, true)
write_file (stopped n) text file = (some (take n text), false)

-- A method returns or throws; its effects stay in both cases.
pub data Outcome : Type 0 where
  returned : Bool → Outcome
  threw : Outcome

pub record Called : Type 0 where
  pub conf : ConfFile
  pub file : Option Bytes
  pub outcome : Outcome

abbrev pub finish_add : Entries → Writing → ConfFile → Option Bytes → Option (List Bytes) → Called
finish_add values w c file none = record { conf = c; file = file; outcome = threw }
finish_add values w c file (some out) =
    let (file', done) = write_file w (file_text out) file in
    record {
      conf = if done then record c { entries = set_all values c.entries } else c;
      file = file';
      outcome = returned done;
    }

unfoldable pub add :
    (values : Entries) (overwrite : Bool) → Writing → ConfFile → Option Bytes → Called
add values overwrite w c file =
    finish_add values w c file (rewritten values overwrite (read_lines file))

-- The line is one of the key's.
abbrev pub is_key_of : Bytes → Option (Bytes × Bytes) → Bool
is_key_of key none = false
is_key_of key (some (a, _)) = bytes_eq (trim a) key

unfoldable pub is_line_of : Bytes → Bytes → Bool
is_line_of key line = is_key_of key (split_at equals (before hash line))

unfoldable pub without : Bytes → List Bytes → List Bytes
without key [] = []
without key (l ∷ ls) = let rest = without key ls in if is_line_of key l then rest else l ∷ rest

unfoldable pub has_line : Bytes → List Bytes → Bool
has_line key [] = false
has_line key (l ∷ ls) = let rest = has_line key ls in if is_line_of key l then true else rest

unfoldable pub erase : Bytes → Entries → Entries
erase k [] = []
erase k ((key, v) ∷ m) = let rest = erase k m in if bytes_eq key k then rest else (key, v) ∷ rest

unfoldable pub remove : Bytes → Writing → ConfFile → Option Bytes → Called
remove key w c file =
    let lines = read_lines file in
    let c' = record c { entries = erase key c.entries } in
    if has_line key lines
    then (let (file', done) = write_file w (file_text (without key lines)) file in
        record { conf = c'; file = file'; outcome = returned done })
    else record { conf = c'; file = file; outcome = returned false }

-- Where the loop of `addFast` ends: behind all values, at a key that it may not write again, or at an
-- `fwrite` of an empty key or value, which gives 0 and not 1.
pub data FastEnd : Type 0 where
  all_values duplicate empty_write : FastEnd

-- The text that `addFast` appends, and where its loop ends.
unfoldable pub fast_text : Entries → Bool → Entries → Bytes × FastEnd
fast_text [] overwrite m = ([], all_values)
fast_text ((key, val) ∷ values) overwrite m =
    let rest = fast_text values overwrite m in
    let text : Bytes × FastEnd =
      if is_empty key
      then (newline ∷ [], empty_write)
      else if is_empty val
      then (newline ∷ (key ++ equals ∷ []), empty_write)
      else (newline ∷ (key ++ equals ∷ (val ++ rest.0)), rest.1) in
    elim (find key m) [ none ↦ text | some _ ↦ if overwrite then text else ([], duplicate) ]

-- `fopen(path, "a")`, and `fopen(path, "w")` if that fails.
pub data Opened : Type 0 where
  to_append to_write : Opened

-- After the loop, if the file took the text; `synced` says whether `fsync` went well.
abbrev pub finish_fast : Entries → (synced : Bool) → ConfFile → Option Bytes → FastEnd → Called
finish_fast values synced c file all_values = record {
  conf = if synced then record c { entries = set_all values c.entries } else c;
  file = file;
  outcome = returned synced;
}
finish_fast values synced c file duplicate = record { conf = c; file = file; outcome = threw }
finish_fast values synced c file empty_write = record {
  conf = c;
  file = file;
  outcome = returned false;
}

abbrev pub old_text : Opened → Option Bytes → Bytes
old_text to_write file = []
old_text to_append none = []
old_text to_append (some t) = t

unfoldable pub add_fast :
    (values : Entries) (overwrite : Bool) → Opened → Writing → ConfFile → Option Bytes → Called
add_fast values overwrite opened cannot_open c file = record {
  conf = c;
  file = file;
  outcome = returned false;
}
add_fast values overwrite opened complete c file =
    let (text, end) = fast_text values overwrite c.entries in
    finish_fast values true c (some (old_text opened file ++ text)) end
add_fast values overwrite opened (stopped n) c file =
    let (text, end) = fast_text values overwrite c.entries in
    if ltb n (length text)
    then record {
      conf = c;
      file = some (old_text opened file ++ take n text);
      outcome = returned false;
    }
    else finish_fast values false c (some (old_text opened file ++ text)) end
