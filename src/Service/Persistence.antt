-- ===== src/Service/Persistence.antt =====
-- What a `Service` of src/service.h keeps in its file, it finds there at the next boot.
use fugu_mppt_firmware.Prelude.{
  ℕ, ◌≡◌, refl, ◌∙◌, Bool, true, false, not, ◌==◌, if◌then◌else◌, Option, some, List, [], ◌∷◌, All,
  arith, Bytes, codes, bytes_eq_refl,
}
use fugu_mppt_firmware.Prelude.Texts.{bytes_eq}
use fugu_mppt_firmware.ConfFile.{
  ConfFile, find, mark_accessed, rewritten, read_lines, load, add, complete,
}
use fugu_mppt_firmware.ConfFile.Text.{is_white, trim, trim_front, trim_back}
use fugu_mppt_firmware.ConfFile.Lines.{IsLine}
use fugu_mppt_firmware.ConfFile.Settings.{IsPlain}
use fugu_mppt_firmware.ConfFile.Update.{load-add, or_else}
use fugu_mppt_firmware.ConfFile.Numbers.{
  got, get_byte, get_string, get_x, get_found, strtol_2_8_10_16, strtol, skip_space, magnitude,
  ranged, scan, digit, parsed, has,
}
use fugu_mppt_firmware.Service.{
  Level, log_error, log_warn, log_info, log_none, log_debug, log_verbose, level_to_str,
  str_to_level, Service, set_log_level, set_enabled_persist, load_conf,
}

abbrev pub enabled_key : Bytes
enabled_key = codes "enabled"

abbrev pub level_key : Bytes
level_key = codes "log_level"

abbrev pub flag : Bool → Bytes
flag en = if en then codes "1" else codes "0"

enabled-IsPlain : (en : Bool) → IsPlain (enabled_key, flag en)
unfolding trim trim_front trim_back is_white
enabled-IsPlain true = record {
  key_open = omega arith;
  key_one = omega arith;
  val_open = omega arith;
  key_trimmed = refl;
  val_trimmed = refl;
}
enabled-IsPlain false = record {
  key_open = omega arith;
  key_one = omega arith;
  val_open = omega arith;
  key_trimmed = refl;
  val_trimmed = refl;
}

-- The levels that a file names: `setLogLevel` writes the others as info.
abbrev pub IsNamed : Level → Type 0
IsNamed log_error = Unit
IsNamed log_warn = Unit
IsNamed log_info = Unit
IsNamed log_none = ⊥
IsNamed log_debug = ⊥
IsNamed log_verbose = ⊥

level_back : (lvl : Level) → IsNamed lvl → str_to_level (level_to_str lvl) ≡ lvl
unfolding str_to_level bytes_eq
level_back log_error h = refl
level_back log_warn h = refl
level_back log_info h = refl
level_back log_none h = absurd h
level_back log_debug h = absurd h
level_back log_verbose h = absurd h

abbrev PlainLevel : Bytes → Type 0
PlainLevel v = IsPlain (level_key, v)

error-IsPlain : PlainLevel (codes "error")
unfolding trim trim_front trim_back is_white
error-IsPlain = record {
  key_open = omega arith;
  key_one = omega arith;
  val_open = omega arith;
  key_trimmed = refl;
  val_trimmed = refl;
}

warn-IsPlain : PlainLevel (codes "warn")
unfolding trim trim_front trim_back is_white
warn-IsPlain = record {
  key_open = omega arith;
  key_one = omega arith;
  val_open = omega arith;
  key_trimmed = refl;
  val_trimmed = refl;
}

info-IsPlain : PlainLevel (codes "info")
unfolding trim trim_front trim_back is_white
info-IsPlain = record {
  key_open = omega arith;
  key_one = omega arith;
  val_open = omega arith;
  key_trimmed = refl;
  val_trimmed = refl;
}

level-IsPlain : (lvl : Level) → PlainLevel (level_to_str lvl)
level-IsPlain log_error = error-IsPlain
level-IsPlain log_warn = warn-IsPlain
level-IsPlain log_info = info-IsPlain
level-IsPlain log_none = info-IsPlain
level-IsPlain log_debug = info-IsPlain
level-IsPlain log_verbose = info-IsPlain

-- The file after `add` of one value.
abbrev pub added : Bytes → Bytes → Option Bytes → Option Bytes
added key val file = (add ((key, val) ∷ []) true complete (load file) file).file

-- The new lines are whole when they are read.
abbrev pub StaysWhole : Bytes → Bytes → Option Bytes → Type 0
StaysWhole key val file =
    (out : List Bytes)
    → rewritten ((key, val) ∷ []) true (read_lines file) ≡ some out
    → All IsLine out

find-added :
    (k key val : Bytes) (file : Option Bytes)
    → IsPlain (key, val)
    → StaysWhole key val file
    → find k (load (added key val file)).entries
      ≡ or_else (find k ((key, val) ∷ [])) (find k (load file).entries)
find-added k key val file plain whole =
    (load-add k ((key, val) ∷ []) (load file) file (plain, _) ((unfold find in refl), _) whole).1

get_flag :
    (en : Bool) (d : ℕ) (c : ConfFile)
    → find enabled_key c.entries ≡ some (flag en)
    → (get_byte enabled_key (some d) c).1 ≡ got (if en then 1 else 0)
unfolding get_byte get_x get_found strtol_2_8_10_16 strtol skip_space magnitude ranged scan digit
    parsed has
get_flag true d c h = rw h refl
get_flag false d c h = rw h refl

get_level :
    (key v d : Bytes) (c : ConfFile)
    → find key c.entries ≡ some v
    → (get_string key (some d) c).1 ≡ got v
unfolding get_string
get_level key v d c h = rw h refl

abbrev flag_number : Bool → ℕ
flag_number en = if en then 1 else 0

flag_back : (en : Bool) → not (flag_number en == 0) ≡ en
flag_back true = refl
flag_back false = refl

mark_accessed-entries : (k : Bytes) (c : ConfFile) → (mark_accessed k c).entries ≡ c.entries
unfolding mark_accessed
mark_accessed-entries k c = ground arith

own_value : (k v : Bytes) (x : Option Bytes) → or_else (find k ((k, v) ∷ [])) x ≡ some v
unfolding find
own_value k v x = rw (bytes_eq_refl k) refl

other_value :
    (v : Bytes) (x : Option Bytes) → or_else (find enabled_key ((level_key, v) ∷ [])) x ≡ x
unfolding find bytes_eq
other_value v x = refl

load_conf-found :
    (en : Bool) (v : Bytes) (t : Service)
    → find enabled_key (load t.conf_file).entries ≡ some (flag en)
    → find level_key (load t.conf_file).entries ≡ some v
    → load_conf t
      ≡ record t { enabled = en; log_level = str_to_level v; applied = some (str_to_level v) }
unfolding load_conf
load_conf-found en v t e l =
    let c = load t.conf_file in
    let d = flag_number t.enabled in
    let c' = (get_byte enabled_key (some d) c).0 in
    let flag_read : (get_byte enabled_key (some d) c).1 ≡ got (flag_number en) =
      get_flag en d c e in
    let same : c'.entries ≡ c.entries =
      unfold get_byte in unfold get_x in mark_accessed-entries enabled_key c in
    let level_read : (get_string level_key (some (codes "info")) c').1 ≡ got v =
      get_level level_key v (codes "info") c' (rw same l) in
    rw (flag_read, level_read, flag_back en) refl

-- The enabled flag and the level were written, in this order, and the file took all writes. A service
-- with the same file, whatever it was before, has both once its settings are loaded. The level is one
-- that the file can name, and the lines of the file are whole when read.
pub load_conf-set :
    (en : Bool) (lvl : Level) (s t : Service)
    → IsNamed lvl
    → StaysWhole enabled_key (flag en) s.conf_file
    → StaysWhole level_key (level_to_str lvl) (added enabled_key (flag en) s.conf_file)
    → let r = load_conf (record t {
      conf_file = (set_log_level lvl true complete (set_enabled_persist en complete s)).conf_file;
    }) in
      (r.enabled ≡ en) × (r.log_level ≡ lvl) × (r.applied ≡ some lvl) × (r.state ≡ t.state)
load_conf-set en lvl s t named whole whole' =
    let r = added enabled_key (flag en) s.conf_file in
    let file = added level_key (level_to_str lvl) r in
    let stored : (set_log_level lvl true complete (set_enabled_persist en complete s)).conf_file
        ≡ file =
      unfold set_log_level in unfold set_enabled_persist in refl in
    let first =
      find-added enabled_key enabled_key (flag en) s.conf_file (enabled-IsPlain en) whole in
    let kept = find-added enabled_key level_key (level_to_str lvl) r (level-IsPlain lvl) whole' in
    let second = find-added level_key level_key (level_to_str lvl) r (level-IsPlain lvl) whole' in
    rw
      (
        stored,
        load_conf-found en (level_to_str lvl) (record t { conf_file = file })
            (kept ∙ other_value (level_to_str lvl) _ ∙ first ∙ own_value enabled_key (flag en) _)
            (second ∙ own_value level_key (level_to_str lvl) _),
        level_back lvl named,
      )
      (refl, refl, refl, refl)
