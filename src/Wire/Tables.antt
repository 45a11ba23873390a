-- ===== src/Wire/Tables.antt =====
-- A subscriber that joins the stream of src/tele/sym_line_protocol.h learns the table from one table
-- frame; and the numbers of symbols never change.
use fugu_mppt_firmware.Prelude.{
  ℕ, zero, suc, ◌+◌, ◌-◌, ◌<◌, ◌≡◌, ◌≢◌, refl, ap, ◌∙◌, false, ◌==◌, some, [], ◌∷◌, ◌++◌, length,
  length-append, All, arith, Bytes,
}
use mathlib.Core.List.{append-nil, append_assoc}
use fugu_mppt_firmware.Wire.{
  varint, get_varint, Symbol, Symbols, write_entry, write_entries, write_full_table, until_nul,
  set_entry, read_entries, read_table,
}
use fugu_mppt_firmware.Wire.Varints.{get_varint-varint}

-- A C string holds no NUL.
abbrev pub IsName : Symbol → Type 0
IsName x = All (λ c. c ≢ 0) x.0

until_nul-append :
    (s rest : Bytes) → All (λ c. c ≢ 0) s → until_nul (s ++ 0 ∷ rest) ≡ some (s, rest)
unfolding until_nul
until_nul-append [] rest h = refl
until_nul-append (c ∷ s) rest h = ground (arith, until_nul-append s rest h.1, h.0)

set_entry-end : (pre : Symbols) (x : Symbol) → set_entry (length pre) x pre ≡ pre ++ x ∷ []
set_entry-end [] x = refl
set_entry-end (y ∷ pre) x = rw (set_entry-end pre x) refl

entry-append :
    (sid : ℕ) (x : Symbol) (rest : Bytes)
    → write_entry sid x ++ rest ≡ varint sid ++ (x.0 ++ 0 ∷ x.1 ∷ rest)
entry-append sid x rest =
    append_assoc (varint sid) (x.0 ++ 0 ∷ x.1 ∷ []) rest
    ∙ ap (varint sid ++◌) (append_assoc x.0 (0 ∷ x.1 ∷ []) rest)

read-write :
    (n : ℕ) (pre syms : Symbols)
    → length syms < n
    → length pre + length syms < 4294967296
    → All IsName syms
    → read_entries n (write_entries (length pre + 1) syms) pre ≡ some (pre ++ syms)
unfolding read_entries write_entries
read-write zero pre syms more fits names = absurd (omega (arith, more))
read-write (suc n) pre [] more fits names = unfold get_varint in rw append-nil refl
read-write (suc n) pre (x ∷ syms) more fits names =
    let sid = length pre + 1 in
    let rest = write_entries (suc sid) syms in
    let number : get_varint (varint sid ++ (x.0 ++ 0 ∷ x.1 ∷ rest)) ≡ (sid, x.0 ++ 0 ∷ x.1 ∷ rest) =
      get_varint-varint sid (x.0 ++ 0 ∷ x.1 ∷ rest) (omega (arith, fits)) in
    let nonzero : (sid == 0) ≡ false = ground arith in
    let place : sid - 1 ≡ length pre = omega arith in
    let size : length (pre ++ x ∷ []) + 1 ≡ suc sid = omega (arith, length-append pre (x ∷ [])) in
    let later : read_entries n rest (pre ++ x ∷ []) ≡ some (pre ++ x ∷ syms) =
      rw (size, append_assoc pre (x ∷ []) syms) at
        (read-write n (pre ++ x ∷ []) syms (omega (arith, more))
          (omega (arith, fits, length-append pre (x ∷ []))) names.1) in
    rw
      (
        entry-append sid x rest,
        number,
        nonzero,
        until_nul-append x.0 (x.1 ∷ rest) names.0,
        entry-append sid x rest,
        number,
        place,
        set_entry-end pre x,
      )
      later

length-entries : (sid : ℕ) (syms : Symbols) → length syms < length (write_entries sid syms)
unfolding write_entries
length-entries sid [] = omega arith
length-entries sid (x ∷ syms) = omega (
  arith,
  length-append (write_entry sid x) (write_entries (suc sid) syms),
  length-append (varint sid) (x.0 ++ 0 ∷ x.1 ∷ []),
  length-append x.0 (0 ∷ x.1 ∷ []),
  length-entries (suc sid) syms,
)

-- From one full table frame a decoder with an empty table learns exactly the sender's table: every symbol
-- at its number, with its datatype. No symbol holds a NUL, and there are less than 2^32.
pub read_table-write_full_table :
    (syms : Symbols)
    → length syms < 4294967296
    → All IsName syms
    → read_table (write_full_table syms) [] ≡ some syms
read_table-write_full_table syms fits names =
    read-write (length (write_entries 1 syms)) [] syms (length-entries 1 syms) (omega (arith, fits))
      names
