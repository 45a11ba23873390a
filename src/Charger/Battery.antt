-- ===== src/Charger/Battery.antt =====
-- `struct BatteryState` of src/charger.h: what the battery management system reported last.
use fugu_mppt_firmware.Prelude.{
  ℕ, ◌+◌, ◌-◌, ◌*◌, ◌<◌, ◌≡◌, Bool, true, ◌&&◌, arith, ltb, leb, u16, u32, if◌then◌else◌, ◌==◌,
  List, [], ◌∷◌, length,
}
use fugu_mppt_firmware.Float.{Float, f0}
use fugu_mppt_firmware.Signal.Ewma
use fugu_mppt_firmware.Signal.Ewma.{Ewma}
use fugu_mppt_firmware.Signal.Integrator
use fugu_mppt_firmware.Signal.Integrator.{CoulombCounter}

-- `VCELL_EXPIRATION_TIME_SEC * 1000000ULL`
abbrev pub expiration_us : ℕ
expiration_us = 180_000_000

abbrev pub ibat_min_samples : ℕ
ibat_min_samples = 8

pub record BatteryState (F : Type 0) : Type 0 where
  pub vcell_high : F
  pub vcell_high_t : ℕ  -- uint32_t: the low half of the clock
  pub vout_avg : Ewma F
  pub coulomb_counter : CoulombCounter F
  pub ibat_ewma : Ewma F
  pub ibat_samples : ℕ  -- uint16_t
  pub ibat_smoothed : F

module _ {F : Type 0} ⦃fl : Float F⦄ where
  open fl use {lt, is_finite}

  unfoldable pub set_vcell_high : F → ℕ → BatteryState F → BatteryState F
  set_vcell_high v now b = record b { vcell_high = v; vcell_high_t = u32 now }

  unfoldable pub have_valid_cell_voltage : ℕ → BatteryState F → Bool
  have_valid_cell_voltage now b =
      lt f0 b.vcell_high && ltb (u32 (u32 now + 4294967296 - b.vcell_high_t)) expiration_us

  unfoldable pub update_bat_current : F → ℕ → BatteryState F → BatteryState F
  update_bat_current ibat now b =
      let e = Ewma.step ibat b.ibat_ewma in
      let n : ℕ =
        if ltb b.ibat_samples ibat_min_samples then u16 (b.ibat_samples + 1) else b.ibat_samples in
      record b {
        ibat_ewma = e;
        ibat_samples = n;
        ibat_smoothed = if leb ibat_min_samples n then e.y else b.ibat_smoothed;
        coulomb_counter = Integrator.update_bat_current ibat now b.coulomb_counter;
      }

  unfoldable pub update : F → BatteryState F → BatteryState F
  update vout b = record b { vout_avg = Ewma.step vout b.vout_avg }

  -- A positive cell voltage is valid for three minutes, across a wrap of the 32-bit time, and invalid
  -- from then on until the time stamp comes round again.
  pub cell_voltage_expires :
      (v : F) (since age : ℕ) (b : BatteryState F)
      → lt f0 v ≡ true
      → age < 4294967296
      → have_valid_cell_voltage (since + age) (set_vcell_high v since b) ≡ ltb age expiration_us
  unfolding have_valid_cell_voltage set_vcell_high
  cell_voltage_expires v since age b h a = ground arith

  -- A cell voltage that was never refreshed is reported as valid again, for three minutes, whenever
  -- a multiple of 2 ^ 32 microseconds (71.6 minutes) has gone by.
  pub stale_cell_voltage_valid :
      (v : F) (since rounds age : ℕ) (b : BatteryState F)
      → lt f0 v ≡ true
      → age < expiration_us
      → have_valid_cell_voltage (since + rounds * 4294967296 + age) (set_vcell_high v since b)
        ≡ true
  unfolding have_valid_cell_voltage set_vcell_high
  stale_cell_voltage_valid v since rounds age b h a = ground arith

  unfoldable pub bat_currents : List (F × ℕ) → BatteryState F → BatteryState F
  bat_currents [] b = b
  bat_currents (x ∷ xs) b = bat_currents xs (update_bat_current x.0 x.1 b)

  currents_from :
      (xs : List (F × ℕ)) (b : BatteryState F)
      → b.ibat_samples + length xs < ibat_min_samples
      → ((bat_currents xs b).ibat_smoothed ≡ b.ibat_smoothed)
        × ((bat_currents xs b).ibat_samples ≡ b.ibat_samples + length xs)
  unfolding bat_currents update_bat_current
  currents_from [] b h = ground arith
  currents_from (x ∷ xs) b h = ground (arith, currents_from xs (update_bat_current x.0 x.1 b))

  -- From a count of 0, the current that is published stays what it was until the eighth sample, with
  -- which it becomes the state of the moving average that has seen all of them.
  pub bat_currents_warm_up :
      (xs : List (F × ℕ)) (x : F × ℕ) (b : BatteryState F)
      → b.ibat_samples ≡ 0
      → length xs < ibat_min_samples
      → let before = bat_currents xs b in
        let after = update_bat_current x.0 x.1 before in
        (before.ibat_smoothed ≡ b.ibat_smoothed)
        × (after.ibat_smoothed ≡ (if length xs == 7 then after.ibat_ewma.y else b.ibat_smoothed))
  unfolding update_bat_current
  bat_currents_warm_up xs x b z h = ground (arith, currents_from xs b)
