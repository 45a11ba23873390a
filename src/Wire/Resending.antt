-- ===== src/Wire/Resending.antt =====
-- When `SymbolTable::tableDue` of src/tele/sym_line_protocol.h sends the full table.
use fugu_mppt_firmware.Prelude.{
  ◌+◌, ◌-◌, ◌<◌, ◌≡◌, refl, Bool, true, false, List, [], ◌∷◌, length, arith,
}
use fugu_mppt_firmware.Prelude.Int.{ℤ}
use fugu_mppt_firmware.Wire.{Resends, table_due}

burst-due :
    (now : ℤ) (d : Resends)
    → 0 < d.burst_left
    → ((table_due now false d).1 ≡ true) × ((table_due now false d).0.burst_left ≡ d.burst_left - 1)
unfolding table_due
burst-due now d h = ground arith

new-due :
    (now : ℤ) (d : Resends)
    → ((table_due now true d).1 ≡ true) × ((table_due now true d).0.burst_left ≡ 2)
unfolding table_due
new-due now d = (refl, refl)

-- The point in which a symbol is new and the next two points come with the full table, at whatever times:
-- the loss of one or two datagrams leaves no symbol unknown.
pub new_symbol_burst :
    (t0 t1 t2 : ℤ) (d : Resends)
    → let (d1, full1) = table_due t0 true d in
      let (d2, full2) = table_due t1 false d1 in
      (full1 ≡ true) × (full2 ≡ true) × ((table_due t2 false d2).1 ≡ true)
new_symbol_burst t0 t1 t2 d =
    let first = new-due t0 d in
    let second = burst-due t1 (table_due t0 true d).0 (omega (arith, first.1)) in
    let third =
      burst-due t2 (table_due t1 false (table_due t0 true d).0).0
        (omega (arith, first.1, second.1)) in
    (first.0, second.0, third.0)

-- Points, each with its time and whether a symbol is new, of which none comes with the full table.
abbrev pub IsSilent : List (ℤ × Bool) → Resends → Type 0
IsSilent [] d = Unit
IsSilent (x ∷ xs) d = ((table_due x.0 x.1 d).1 ≡ false) × IsSilent xs (table_due x.0 x.1 d).0

silent-pts :
    (now : ℤ) (saw_new : Bool) (d : Resends)
    → d.pts < 200
    → (table_due now saw_new d).1 ≡ false
    → ((table_due now saw_new d).0.pts ≡ d.pts + 1) × (d.pts + 1 < 200)
unfolding table_due
silent-pts now saw_new d w h = ground arith

-- No 200 points in a row are without the full table, whatever their times and symbols: the points since
-- the last one, which are less than 200 as they are after a full table, and the silent ones come to
-- less than 200.
pub silent_run_short :
    (xs : List (ℤ × Bool)) (d : Resends) → d.pts < 200 → IsSilent xs d → d.pts + length xs < 200
silent_run_short [] d w s = omega (arith, w)
silent_run_short (x ∷ xs) d w s =
    let next = silent-pts x.0 x.1 d w s.0 in
    let rest = silent_run_short xs (table_due x.0 x.1 d).0 (omega (arith, next.0, next.1)) s.1 in
    omega (arith, next.0, rest)
