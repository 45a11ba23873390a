-- ===== src/ConfFile/Update.antt =====
-- `ConfFile::add` and `ConfFile::remove` of src/conf.h as updates of a map: what is read from the file
-- after them.
use fugu_mppt_firmware.Prelude.{
  ◌≡◌, ◌≢◌, refl, sym, ap, ◌∙◌, Bool, true, false, Option, none, some, List, [], ◌∷◌, ◌++◌, inl,
  inr, ◌⊎◌, Bool-cases, Option-cases, All, Bytes, bytes_eq_cases,
}
use fugu_mppt_firmware.ConfFile.{
  ConfFile, Entries, find, set, set_all, contains, append_new, rewritten, read_lines, load,
  file_text, Writing, complete, cannot_open, stopped, write_file, returned, threw, add, finish_add,
  Called,
}
use fugu_mppt_firmware.ConfFile.Lines.{IsLine, load-file_text, load-read_lines}
use fugu_mppt_firmware.ConfFile.Settings.{last_value, last_value-append, find-set, find-from_empty}
use fugu_mppt_firmware.ConfFile.Rewrite.{
  AllPlain, IsDistinct, lines-other, lines-set, new-other, new-written, new-set,
}

abbrev pub or_else : Option Bytes → Option Bytes → Option Bytes
or_else none o = o
or_else (some v) o = some v

rewritten_lem :
    (k : Bytes) (values : Entries) (lines : List Bytes)
    → AllPlain values
    → IsDistinct values
    → (out : List Bytes) × (rewritten values true lines ≡ some out)
      × (last_value k out none ≡ or_else (find k values) (last_value k lines none))
unfolding rewritten
rewritten_lem k values lines plain distinct = elim (Option-cases (find k values)) [
  | inl none_k ↦
      let (r, e, s) = lines-other k values plain lines [] none none_k in
      (
        r.0 ++ append_new values r.1,
        rw e refl,
        last_value-append k r.0 (append_new values r.1) none
            ∙ new-other k values r.1 (last_value k r.0 none) plain none_k
            ∙ (rw none_k s),
      )
  | inr (v, known) ↦
      let (r, e, s) = lines-set k values plain v lines [] none known (λ c. unfold contains in cc) in
      let d = last_value k r.0 none in
      (
        r.0 ++ append_new values r.1,
        rw e refl,
        last_value-append k r.0 (append_new values r.1) none ∙ elim (Bool-cases (contains k r.1)) [
          | inl has ↦ rw known (new-written k values r.1 d plain has ∙ s has)
          | inr lacks ↦ rw known (new-set k v values r.1 d plain distinct known lacks)
        ],
      )
]

-- The memory after `add`.
find-set_all :
    (k : Bytes) (values m : Entries)
    → IsDistinct values
    → find k (set_all values m) ≡ or_else (find k values) (find k m)
find-set_all k [] m distinct = unfold find in refl
find-set_all k ((key, val) ∷ values) m distinct =
    find-set_all k values (set key val m) distinct.1
    ∙ ap (or_else (find k values)) (find-set key k val m)
    ∙ elim (bytes_eq_cases key k) [
      | inl (same, p) ↦
          let none_k : find k values ≡ none = rw (← p) distinct.0 in
          unfold find in rw (same, none_k) refl
      | inr (other, _) ↦ unfold find in rw other refl
    ]

-- After `add` may overwrite and the file takes all writes: it returns true, a key of the values has its
-- value, in the file as in memory, and all other keys have what they had there. The values' keys and
-- values can stand in a line, no key comes twice, and the new lines are whole when read.
pub load-add :
    (k : Bytes) (values : Entries) (c : ConfFile) (file : Option Bytes)
    → AllPlain values
    → IsDistinct values
    → ((out : List Bytes) → rewritten values true (read_lines file) ≡ some out → All IsLine out)
    → let r = add values true complete c file in
      (r.outcome ≡ returned true)
      × (find k (load r.file).entries ≡ or_else (find k values) (find k (load file).entries))
      × (find k r.conf.entries ≡ or_else (find k values) (find k c.entries))
unfolding add write_file
load-add k values c file plain distinct whole =
    let (out, e, v) = rewritten_lem k values (read_lines file) plain distinct in
    let new : find k (load (some (file_text out))).entries ≡ last_value k out none =
      ap (find k) (load-file_text out (whole out e)) ∙ find-from_empty k out in
    let old : find k (load file).entries ≡ last_value k (read_lines file) none =
      ap (find k) (load-read_lines file) ∙ find-from_empty k (read_lines file) in
    rw e (
      refl,
      new ∙ v ∙ ap (or_else (find k values)) (sym old),
      find-set_all k values c.entries distinct,
    )

-- What came of an `add`: it is done; or the file failed and the memory is as before; or a key may not
-- be overwritten and nothing has changed.
abbrev pub AddResult : Writing → ConfFile → Option Bytes → Called → Type 0
AddResult w c file r =
    ((r.outcome ≡ returned true) × (w ≡ complete))
    ⊎ ((r.outcome ≡ returned false) × (w ≢ complete) × (r.conf ≡ c))
    ⊎ ((r.outcome ≡ threw) × (r.conf ≡ c) × (r.file ≡ file))

finish_add-result :
    (values : Entries) (w : Writing) (c : ConfFile) (file : Option Bytes) (o : Option (List Bytes))
    → AddResult w c file (finish_add values w c file o)
unfolding write_file
finish_add-result values w c file none = inr (inr (refl, refl, refl))
finish_add-result values complete c file (some out) = inl (refl, refl)
finish_add-result values cannot_open c file (some out) = inr (inl (refl, (λ e. cc), refl))
finish_add-result values (stopped n) c file (some out) = inr (inl (refl, (λ e. cc), refl))

-- `add` returns true only if the file took all writes, and false only if it did not, and then the
-- settings in memory stay; or it meets a key that it may not overwrite: it throws, and neither the
-- memory nor the file has changed.
pub add-AddResult :
    (values : Entries) (overwrite : Bool) (w : Writing) (c : ConfFile) (file : Option Bytes)
    → AddResult w c file (add values overwrite w c file)
unfolding add
add-AddResult values overwrite w c file =
    finish_add-result values w c file (rewritten values overwrite (read_lines file))
