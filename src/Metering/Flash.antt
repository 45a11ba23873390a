-- ===== src/Metering/Flash.antt =====
-- `FlashValueStore` of src/store.h: a value in a file, with a test that keeps writes rare.
use fugu_mppt_firmware.Prelude.{
  ℕ, ◌+◌, ◌-◌, ◌≤◌, ◌≡◌, ◌⊎◌, inl, inr, Bool, true, false, ◌&&◌, not, ◌==◌, ltb, arith, u32,
  if◌then◌else◌, List, [], ◌∷◌,
}

pub record FlashValueStore (T : Type 0) : Type 0 where
  pub value_flash : T
  pub last_write : ℕ  -- unsigned long
  pub min_write_interval_ms : ℕ  -- unsigned long

module _ {T : Type 0} where
  -- `_lastWrite && (now - _lastWrite < _minWriteIntervalMs)`, at `millis()`
  abbrev pub is_early : ℕ → FlashValueStore T → Bool
  is_early now s =
      not (s.last_write == 0) && ltb (u32 (now + 4294967296 - s.last_write)) s.min_write_interval_ms

  -- `written` is the result of the file's update.
  unfoldable pub update :
      (T → T → Bool) → (now : ℕ) (written : Bool) → T → FlashValueStore T → FlashValueStore T × Bool
  update similar now written val s =
      if is_early now s
      then (s, false)
      else if similar val s.value_flash
      then (s, false)
      else if written
      then (record s { value_flash = val; last_write = now }, true)
      else (s, false)

  -- The values offered one after the other, each with its time and whether the file can be written: the
  -- store behind them, and the times of the writes.
  unfoldable pub updates :
      (T → T → Bool) → List (ℕ × Bool × T) → FlashValueStore T → FlashValueStore T × List ℕ
  updates similar [] s = (s, [])
  updates similar ((now, written, val) ∷ xs) s =
      let (s1, wrote) = update similar now written val s in
      let (s2, times) = updates similar xs s1 in (s2, if wrote then now ∷ times else times)

-- Each time is at least the interval, on a clock of 32 bits, behind the one before it; a write at the
-- time 0 counts as none.
abbrev pub IsSpaced : (interval last : ℕ) → List ℕ → Type 0
IsSpaced interval last [] = Unit
IsSpaced interval last (t ∷ ts) =
    ((last ≡ 0) ⊎ (interval ≤ u32 (t + 4294967296 - last))) × IsSpaced interval t ts

module _ {T : Type 0} where
  -- A write happens outside the interval and notes its time and its value; else the store is kept.
  update_lem :
      (similar : T → T → Bool) (now : ℕ) (written : Bool) (val : T) (s : FlashValueStore T)
      → let r = update similar now written val s in
        ((r.1 ≡ true)
          × (r.0 ≡ record s { value_flash = val; last_write = now })
          × ((s.last_write ≡ 0)
              ⊎ (s.min_write_interval_ms ≤ u32 (now + 4294967296 - s.last_write))))
        ⊎ ((r.1 ≡ false) × (r.0 ≡ s))
  unfolding update
  update_lem similar now written val s = ground arith

  -- Whatever values are offered, whenever and however often, and whether or not the file can be written:
  -- between two successive writes, and between the stored last one and the first, there is at least the
  -- write interval, across a wrap of the clock too, unless the earlier one was at the time 0.
  pub updates-IsSpaced :
      (similar : T → T → Bool) (xs : List (ℕ × Bool × T)) (s : FlashValueStore T)
      → IsSpaced s.min_write_interval_ms s.last_write (updates similar xs s).1
  unfolding updates
  updates-IsSpaced similar [] s = _
  updates-IsSpaced similar ((now, written, val) ∷ xs) s =
      elim (update_lem similar now written val s) [
        | inl (wrote, stored, due) ↦
            rw (wrote, stored)
              (due, updates-IsSpaced similar xs (record s { value_flash = val; last_write = now }))
        | inr (kept, same) ↦ rw (kept, same) (updates-IsSpaced similar xs s)
      ]
