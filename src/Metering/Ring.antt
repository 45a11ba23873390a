-- ===== src/Metering/Ring.antt =====
-- `DailyRingStorageState` and `DailyRingStorage::getAllDays` of src/metering.h: the ring of the last
-- sixty days.
use fugu_mppt_firmware.Prelude.{
  ℕ, ◌+◌, ◌%◌, Bool, true, false, ltb, leb, ◌||◌, u16, if◌then◌else◌, List, [], ◌∷◌, Option, none,
  some, set, get_or, suc, zero, ◌>>=◌,
}

-- `NumDays`
abbrev pub num_days : ℕ
num_days = 60

-- `D` is a day, of which the ring uses `hasEnergy`.
pub record Ring (D : Type 0) : Type 0 where
  pub total_days : ℕ  -- uint16_t
  pub ring_ptr : ℕ  -- uint16_t
  pub ring_buf : List D

abbrev pub replicate : {D : Type 0} → ℕ → D → List D
replicate zero d = []
replicate (suc n) d = d ∷ replicate n d

module _ {D : Type 0} (has_energy : D → Bool) (empty : D) where
  -- All bytes are 0; `empty` is the day of zeros.
  unfoldable pub clear : Ring D
  clear = record { total_days = 0; ring_ptr = 0; ring_buf = replicate num_days empty }

  -- `add` behind its assertion.
  abbrev pub stored : D → Ring D → Ring D
  stored day r = record {
    total_days = u16 (r.total_days + 1);
    ring_ptr = (r.ring_ptr + 1) % num_days;
    ring_buf = set r.ring_buf r.ring_ptr day;
  }

  -- `none` is the failed assertion.
  unfoldable pub add : D → Ring D → Option (Ring D)
  add day r = if has_energy day then some (stored day r) else none

  unfoldable pub adds : List D → Ring D → Option (Ring D)
  adds [] r = some r
  adds (d ∷ ds) r = add d r >>= adds ds

  -- `ringBuf[(ringPtr + i) % n]`
  abbrev pub day_at : Ring D → ℕ → D
  day_at r i = get_or r.ring_buf ((r.ring_ptr + i) % num_days) empty

  -- The loop of `getAllDays` from `i` on, for the given number of days; `shown` is the conversion of a
  -- day to the element type of the result.
  unfoldable pub days_from : {S : Type 0} → (D → S) → (i count : ℕ) → Ring D → List S
  days_from shown i zero r = []
  days_from shown i (suc count) r =
      let rest = days_from shown (suc i) count r in
      if has_energy (day_at r i) then shown (day_at r i) ∷ rest else rest

  unfoldable pub get_all_days : {S : Type 0} → (D → S) → Ring D → List S
  get_all_days shown r = days_from shown 0 num_days r

  -- `loaded` is what was read from the file, if that succeeded.
  unfoldable pub load : Option (Ring D) → Ring D × Bool
  load none = (clear, false)
  load (some r) =
      if leb num_days r.ring_ptr || ltb r.total_days r.ring_ptr then (clear, false) else (r, true)
