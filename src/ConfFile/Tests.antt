-- ===== src/ConfFile/Tests.antt =====
-- The settings of src/conf.h at a concrete file.
use mathlib.Core.Option.{some-injective}
use fugu_mppt_firmware.Prelude.{
  ◌≡◌, refl, sym, subst, ◌∙◌, true, none, some, List, [], ◌∷◌, ◌++◌, arith, All, Bytes, codes,
}
use fugu_mppt_firmware.Prelude.Texts.{bytes_eq}
use fugu_mppt_firmware.Prelude.Int.{pos}
use fugu_mppt_firmware.ConfFile.{
  ConfFile, Entries, find, set, contains, update_found, update_line, update_lines, append_new,
  rewritten, read_lines, load, parse_line, parse_lines, complete, returned, add, remove, without,
  has_line, is_line_of,
}
use fugu_mppt_firmware.ConfFile.Text.{
  is_white, trim_front, trim_back, trim, before, behind, split_at, gets, strip_newline,
}
use fugu_mppt_firmware.ConfFile.Lines.{IsLine}
use fugu_mppt_firmware.ConfFile.Settings.{IsPlain}
use fugu_mppt_firmware.ConfFile.Update.{or_else, load-add}
use fugu_mppt_firmware.ConfFile.Removal.{load-remove}
use fugu_mppt_firmware.ConfFile.Numbers.{get_long, got}
use fugu_mppt_firmware.ConfFile.Decimal.{decimal, get_long-add}

abbrev text : Bytes
text = codes "# limits" ++ 10 ∷ (codes "vout = 28.5  # V" ++ 10 ∷ (codes "log=1" ++ 10 ∷ []))

abbrev conf : ConfFile
conf = record { entries = []; accessed = [] }

loads_value : find (codes "vout") (load (some text)).entries ≡ some (codes "28.5")
unfolding find set load parse_line parse_lines gets before behind split_at trim trim_front trim_back
    is_white bytes_eq
loads_value = refl

abbrev changes : Entries
changes = (codes "vout", codes "27") ∷ (codes "new", codes "x y") ∷ []

abbrev new_lines : List Bytes
new_lines = codes "# limits" ∷ codes "vout=27  # V" ∷ codes "log=1" ∷ codes "new=x y" ∷ []

rewritten_lines : rewritten changes true (read_lines (some text)) ≡ some new_lines
unfolding find contains update_found update_line update_lines append_new rewritten read_lines gets
    before behind split_at trim trim_front trim_back is_white strip_newline bytes_eq
rewritten_lines = refl

changes-IsPlain : All IsPlain changes
unfolding trim trim_front trim_back is_white
changes-IsPlain = (
  record {
    key_open = omega arith;
    key_one = omega arith;
    val_open = omega arith;
    key_trimmed = refl;
    val_trimmed = refl;
  },
  (
    record {
      key_open = omega arith;
      key_one = omega arith;
      val_open = omega arith;
      key_trimmed = refl;
      val_trimmed = refl;
    },
    _,
  ),
)

-- Each line is whole when read.
new_lines-IsLine : All IsLine new_lines
new_lines-IsLine = omega arith

load-add_example :
    let r = add changes true complete conf (some text) in
    (r.outcome ≡ returned true)
    × (find (codes "log") (load r.file).entries
        ≡ or_else none (find (codes "log") (load (some text)).entries))
    × (find (codes "log") r.conf.entries ≡ none)
unfolding find bytes_eq
load-add_example =
    load-add (codes "log") changes conf (some text) changes-IsPlain (refl, (refl, _))
      (λ out e. subst (All IsLine) (some-injective _ _ (sym rewritten_lines ∙ e)) new_lines-IsLine)

load-remove_example :
    let r = remove (codes "vout") complete conf (some text) in
    (r.outcome ≡ returned true)
    × (find (codes "vout") (load r.file).entries ≡ none)
    × (find (codes "vout") r.conf.entries ≡ none)
unfolding find bytes_eq has_line is_line_of without read_lines gets before split_at trim trim_front
    trim_back is_white strip_newline
load-remove_example = load-remove (codes "vout") (codes "vout") conf (some text) (omega arith)

-- `baud=115200` in a file that did not exist.
baud_lines :
    rewritten ((codes "baud", decimal 9 115200) ∷ []) true (read_lines none)
    ≡ some (codes "baud=115200" ∷ [])
unfolding rewritten update_lines append_new contains read_lines decimal
baud_lines = refl

get_long-add_example :
    let r = add ((codes "baud", decimal 9 115200) ∷ []) true complete conf none in
    (get_long (codes "baud") (pos 0) (load r.file)).1 ≡ got (pos 115200)
get_long-add_example =
    get_long-add (codes "baud") 115200 (pos 0) conf none
      (record {
        key_open = omega arith;
        key_one = omega arith;
        val_open = _;
        key_trimmed = unfold trim trim_front trim_back is_white in refl;
        val_trimmed = unfold trim trim_front trim_back in refl;
      })
      (omega arith)
      (λ out e. subst (All IsLine) (some-injective _ _ (sym baud_lines ∙ e)) (omega arith))
