-- ===== src/ConfFile/Lines.antt =====
-- What `ConfFile::add` writes line by line is what the constructor and the next `add` of src/conf.h
-- read.
use fugu_mppt_firmware.Prelude.{
  ℕ, ◌-◌, ◌≤◌, ◌<◌, ◌≡◌, ◌≢◌, refl, sym, ap, ◌∙◌, Option, none, some, List, [], ◌∷◌, ◌++◌, map,
  length, arith, All, Bytes,
}
use fugu_mppt_firmware.ConfFile.{Entries, parse_lines, load, read_lines, file_text}
use fugu_mppt_firmware.ConfFile.Text.{newline, gets, before, c_string, strip_newline}
use fugu_mppt_firmware.ConfFile.Trim.{entry_of, put_entry, parse_line_lem, entry-strip}

-- A line that `fgets` gives whole: it has no newline and no NUL, and fits the buffer with its newline.
pub record IsLine (l : Bytes) : Type 0 where
  pub lacks_newline : All (λ c. c ≢ newline) l
  pub lacks_nul : All (λ c. c ≢ 0) l
  pub fits : length l ≤ 254

gets-line :
    (l rest : Bytes) (room : ℕ)
    → All (λ c. c ≢ newline) l
    → length l < room
    → gets room (l ++ newline ∷ rest) ≡ (l ++ newline ∷ []) ∷ gets 255 rest
unfolding gets
gets-line [] rest room lacks fits = ground arith
gets-line (c ∷ l) rest room lacks fits =
    ground (arith, lacks.0, gets-line l rest (room - 1) lacks.1)

gets-file_text :
    (ls : List Bytes) → All IsLine ls → gets 255 (file_text ls) ≡ map (λ l. l ++ newline ∷ []) ls
unfolding file_text
gets-file_text [] h = unfold gets in refl
gets-file_text (l ∷ ls) h =
    gets-line l (file_text ls) 255 h.0.lacks_newline (omega (arith, h.0.fits))
    ∙ ap ((l ++ newline ∷ []) ∷◌) (gets-file_text ls h.1)

c_string-line : (l : Bytes) → All (λ c. c ≢ 0) l → c_string (l ++ newline ∷ []) ≡ l ++ newline ∷ []
unfolding before
c_string-line [] h = refl
c_string-line (c ∷ l) h = ground (arith, h.0, c_string-line l h.1)

strip-line : (l : Bytes) → strip_newline (l ++ newline ∷ []) ≡ strip_newline l
unfolding strip_newline
strip-line [] = refl
strip-line (c ∷ l) = rw (strip-line l) refl

-- The lines' settings, one after the other.
unfoldable pub from_lines : List Bytes → Entries → Entries
from_lines [] m = m
from_lines (l ∷ ls) m = from_lines ls (put_entry (entry_of l) m)

strip_all : List Bytes → List Bytes
strip_all bufs = map (λ buf. strip_newline (c_string buf)) bufs

parse_lines-strip :
    (bufs : List Bytes) (m : Entries) → parse_lines bufs m ≡ from_lines (strip_all bufs) m
unfolding parse_lines from_lines strip_all
parse_lines-strip [] m = refl
parse_lines-strip (b ∷ bufs) m =
    ap (parse_lines bufs) (parse_line_lem b m)
    ∙ parse_lines-strip bufs (put_entry (entry_of (c_string b)) m)
    ∙ ap (λ o. from_lines (strip_all bufs) (put_entry o m)) (sym (entry-strip (c_string b)))

-- The constructor gives the settings of the lines that `add` and `remove` read.
pub load-read_lines : (file : Option Bytes) → (load file).entries ≡ from_lines (read_lines file) []
unfolding load read_lines strip_all from_lines
load-read_lines none = refl
load-read_lines (some text) = parse_lines-strip (gets 255 text) []

strip_all-lines :
    (ls : List Bytes)
    → All IsLine ls
    → strip_all (map (λ l. l ++ newline ∷ []) ls) ≡ map strip_newline ls
unfolding strip_all
strip_all-lines [] h = refl
strip_all-lines (l ∷ ls) h =
    rw (c_string-line l h.0.lacks_nul, strip-line l, strip_all-lines ls h.1) refl

-- Lines that are short enough and hold no newline and no NUL are read back from the file that they are
-- written to, each without a carriage return at its end.
pub read_lines-file_text :
    (ls : List Bytes) → All IsLine ls → read_lines (some (file_text ls)) ≡ map strip_newline ls
unfolding read_lines strip_all
read_lines-file_text ls h = ap strip_all (gets-file_text ls h) ∙ strip_all-lines ls h

from_lines-strip :
    (ls : List Bytes) (m : Entries) → from_lines (map strip_newline ls) m ≡ from_lines ls m
unfolding from_lines
from_lines-strip [] m = refl
from_lines-strip (l ∷ ls) m =
    ap (λ o. from_lines (map strip_newline ls) (put_entry o m)) (entry-strip l)
    ∙ from_lines-strip ls (put_entry (entry_of l) m)

pub load-file_text :
    (ls : List Bytes) → All IsLine ls → (load (some (file_text ls))).entries ≡ from_lines ls []
load-file_text ls h =
    load-read_lines (some (file_text ls))
    ∙ ap (λ x. from_lines x []) (read_lines-file_text ls h)
    ∙ from_lines-strip ls []
