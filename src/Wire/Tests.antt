-- ===== src/Wire/Tests.antt =====
-- The binary line protocol of src/tele/sym_line_protocol.h at concrete symbols.
use fugu_mppt_firmware.Prelude.{◌≡◌, true, false, some, [], ◌∷◌, arith, codes}
use fugu_mppt_firmware.Prelude.Int.{pos}
use fugu_mppt_firmware.Wire.{Symbols, write_full_table, read_table, Resends, table_due}
use fugu_mppt_firmware.Wire.Tables.{read_table-write_full_table}
use fugu_mppt_firmware.Wire.Resending.{new_symbol_burst}

-- A measurement, which is text, and a field of type F32.
abbrev symbols : Symbols
symbols = (codes "mppt", 0) ∷ (codes "P", 9) ∷ []

read_table-write_full_table_example : read_table (write_full_table symbols) [] ≡ some symbols
read_table-write_full_table_example =
    read_table-write_full_table symbols (omega arith) (omega arith)

abbrev rest_state : Resends
rest_state = record {
  pts = 5;
  last_full_ms = pos 1_000;
  burst_left = 0;
  spaced_left = 0;
  spaced_next_ms = pos 0;
}

new_symbol_burst_example :
    let (d1, full1) = table_due (pos 2_000) true rest_state in
    let (d2, full2) = table_due (pos 2_010) false d1 in
    (full1 ≡ true) × (full2 ≡ true) × ((table_due (pos 2_020) false d2).1 ≡ true)
new_symbol_burst_example = new_symbol_burst (pos 2_000) (pos 2_010) (pos 2_020) rest_state
