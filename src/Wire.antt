-- ===== src/Wire.antt =====
-- The binary line protocol of src/tele/sym_line_protocol.h: its varints, `SymbolTable`, and the table
-- frames of the decoder `lpDecode`. A byte is a number below 256.
pub mod Varints
pub mod Tables
pub mod Resending
pub mod Tests
use fugu_mppt_firmware.Prelude.{
  ℕ, zero, suc, ◌+◌, ◌-◌, ◌*◌, ◌/◌, ◌%◌, Bool, true, false, ◌&&◌, ◌||◌, not, ltb, leb, ◌==◌, u32,
  if◌then◌else◌, Option, none, some, List, [], ◌∷◌, ◌++◌, length, Bytes, bytes_eq, ◌>>=◌,
}
use fugu_mppt_firmware.Prelude.Int.{ℤ, pos, ltb_ℤ, ◌+ℤ◌, ◌-ℤ◌}

-- `putVarint`, for up to `f + 1` bytes.
unfoldable pub put_varint : (f : ℕ) → ℕ → Bytes
put_varint zero v = v ∷ []
put_varint (suc f) v =
    let more = put_varint f (v / 128) in if ltb v 128 then v ∷ [] else (v % 128 + 128) ∷ more

-- Ten bytes hold 64 bits.
abbrev pub varint : ℕ → Bytes
varint v = put_varint 9 v

-- `getVarint`, of at most ten bytes: the value and what is left.
unfoldable pub get_varint : Bytes → ℕ × Bytes
get_varint [] = (0, [])
get_varint (b ∷ s) =
    let more = get_varint s in if ltb b 128 then (b, s) else (b % 128 + more.0 * 128, more.1)

-- A symbol and its datatype's byte; the symbol with the number `sid` is at place `sid - 1`.
abbrev pub Symbol : Type 0
Symbol = Bytes × ℕ

abbrev pub Symbols : Type 0
Symbols = List Symbol

-- The number of a symbol, counted from `sid` on, with its datatype.
unfoldable pub find_from : (sid : ℕ) → Bytes → Symbols → Option (ℕ × ℕ)
find_from sid s [] = none
find_from sid s ((name, dt) ∷ syms) =
    let rest = find_from (suc sid) s syms in if bytes_eq name s then some (sid, dt) else rest

-- `intern`: the table, the number and whether it is new. `none` is the failed assertion that a symbol's
-- datatype is fixed.
unfoldable pub intern : Bytes → (dt : ℕ) → Symbols → Option (Symbols × ℕ × Bool)
intern s dt syms = elim (find_from 1 s syms) [
  | none ↦ some (syms ++ (s, dt) ∷ [], length syms + 1, true)
  | some (sid, dt') ↦ if dt' == dt then some (syms, sid, false) else none
]

abbrev pub write_entry : (sid : ℕ) → Symbol → Bytes
write_entry sid x = varint sid ++ (x.0 ++ 0 ∷ x.1 ∷ [])

unfoldable pub write_entries : (sid : ℕ) → Symbols → Bytes
write_entries sid [] = 0 ∷ []
write_entries sid (x ∷ syms) = write_entry sid x ++ write_entries (suc sid) syms

-- `FrameT::Table` is 2.
abbrev pub write_full_table : Symbols → Bytes
write_full_table syms = 2 ∷ write_entries 1 syms

-- A string up to its NUL, and what is behind it.
unfoldable pub until_nul : Bytes → Option (Bytes × Bytes)
until_nul [] = none
until_nul (c ∷ s) =
    let rest = until_nul s in
    if c == 0 then some ([], s) else elim rest [ none ↦ none | some (a, b) ↦ some (c ∷ a, b) ]

-- `tab.resize(sid)` where it is shorter, and the entry at `i = sid - 1`.
abbrev pub set_entry : (i : ℕ) → Symbol → Symbols → Symbols
set_entry zero x [] = x ∷ []
set_entry zero x (y ∷ syms) = x ∷ syms
set_entry (suc i) x [] = ([], 0) ∷ set_entry i x []
set_entry (suc i) x (y ∷ syms) = y ∷ set_entry i x syms

-- The loop of `lpDecode` over the entries of a table frame, of which there are less than `n`. `none` is a
-- frame that ends within an entry, behind which the code reads on.
unfoldable pub read_entries : (n : ℕ) → Bytes → Symbols → Option Symbols
read_entries zero s syms = none
read_entries (suc n) s syms =
    let (sid, t) = get_varint s in
    let entry : Option Symbols = until_nul t >>= (λ r. elim r.1 [
      | [] ↦ none
      | dt ∷ u ↦ read_entries n u (set_entry (sid - 1) (r.0, dt) syms)
    ]) in
    if sid == 0 then some syms else entry

-- A frame holds less entries than bytes.
abbrev pub read_table : Bytes → Symbols → Option Symbols
read_table [] syms = none
read_table (frame_type ∷ s) syms = if frame_type == 2 then read_entries (length s) s syms else none

-- The resends that are owed; times are int64_t.
pub record Resends : Type 0 where
  pub pts : ℕ  -- uint32_t
  pub last_full_ms : ℤ
  pub burst_left : ℕ
  pub spaced_left : ℕ
  pub spaced_next_ms : ℤ

abbrev pub at_least : ℤ → ℤ → Bool
at_least x y = not (ltb_ℤ x y)

abbrev pub noticed : (now : ℤ) (saw_new : Bool) → Resends → Resends
noticed now saw_new d =
    if saw_new
    then record d { burst_left = 3; spaced_left = 2; spaced_next_ms = now +ℤ pos 20_000 }
    else d

abbrev pub resent : (now : ℤ) → Bool → Resends → Resends × Bool
resent now beat d =
    if ltb 0 d.burst_left
    then (record d { burst_left = d.burst_left - 1 }, true)
    else if ltb 0 d.spaced_left && at_least now d.spaced_next_ms
    then (record d { spaced_left = d.spaced_left - 1; spaced_next_ms = now +ℤ pos 20_000 }, true)
    else (d, beat)

abbrev pub counted : (now : ℤ) → Resends × Bool → Resends × Bool
counted now (d, true) = (record d { pts = 0; last_full_ms = now }, true)
counted now (d, false) = (d, false)

-- `tableDue`
unfoldable pub table_due : (now : ℤ) (saw_new : Bool) → Resends → Resends × Bool
table_due now saw_new d0 =
    let d1 = noticed now saw_new d0 in
    let d : Resends = record d1 { pts = u32 (d1.pts + 1) } in
    let beat = leb 200 d.pts || at_least (now -ℤ d.last_full_ms) (pos 120_000) in
    counted now (resent now beat d)

abbrev pub force_resend : Resends → Resends
force_resend d = record d { burst_left = 3; spaced_left = 2 }
