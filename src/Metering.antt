-- ===== src/Metering.antt =====
-- The energy store: `FlashValueStore` of src/store.h (Flash), the ring of days of src/metering.h
-- (Ring) and `SolarEnergyMeter` of src/metering.h.
pub mod Flash
pub mod Ring
pub mod Window
pub mod Daily
pub mod Tests
use fugu_mppt_firmware.Prelude.{
  ℕ, ◌+◌, ◌≡◌, Bool, true, false, ◌&&◌, not, ◌==◌, arith, u32, if◌then◌else◌,
}
use fugu_mppt_firmware.Float.{Float, f0}
use fugu_mppt_firmware.Signal.Integrator
use fugu_mppt_firmware.Signal.Integrator.{Integrator}
use fugu_mppt_firmware.Metering.Flash
use fugu_mppt_firmware.Metering.Flash.{FlashValueStore}

pub record PersistentState (F : Type 0) : Type 0 where
  pub boot_count : ℕ  -- uint32_t
  pub total_energy : F  -- double
  pub time_last_power : ℕ  -- std::time_t
  pub today_energy : F

pub record SolarEnergyMeter (F : Type 0) : Type 0 where
  pub total_energy : Integrator F
  pub flash : FlashValueStore (PersistentState F)
  -- of the daily meter, what is read here
  pub time_last_power : ℕ
  pub today_energy : F

module _ {F : Type 0} ⦃fl : Float F⦄ where
  open fl use {sub, lt, le, fabs, dec}

  -- The similarity test that the constructor of `flash` is given.
  unfoldable pub similar : PersistentState F → PersistentState F → Bool
  similar a b =
      lt (fabs (sub a.total_energy b.total_energy)) (dec 5 0)
      && (a.boot_count == b.boot_count)
      && lt (fabs (sub a.today_energy b.total_energy)) (dec 5 0)

  unfoldable pub add : (power : F) (now : ℕ) → SolarEnergyMeter F → SolarEnergyMeter F
  add power now m =
      if lt (dec 1 1) power
      then record m { total_energy = Integrator.integrate power now m.total_energy }
      else m

  abbrev pub stats : (increase_boot_counter : Bool) → SolarEnergyMeter F → PersistentState F
  stats increase m = record {
    boot_count =
        if increase
        then u32 (m.flash.value_flash.boot_count + 1)
        else m.flash.value_flash.boot_count;
    total_energy = m.total_energy.value;
    time_last_power = m.time_last_power;
    today_energy = m.today_energy;
  }

  -- `now` is `millis()`, and `written` is whether the file could be written.
  unfoldable pub commit :
      (now : ℕ) (written increase_boot_counter : Bool)
      → SolarEnergyMeter F
      → SolarEnergyMeter F × Bool
  commit now written increase m =
      let (flash, changed) = Flash.update similar now written (stats increase m) m.flash in
      (record m { flash = flash }, changed)

  -- The test takes the stored total energy for the energy of the day: once the two are 5 Wh apart, a
  -- commit outside the write interval writes the file again, although the stored value is the same.
  pub unchanged_value_written :
      (now : ℕ) (m : SolarEnergyMeter F)
      → m.flash.value_flash ≡ stats false m
      → lt (fabs (sub m.today_energy m.total_energy.value)) (dec 5 0) ≡ false
      → Flash.is_early now m.flash ≡ false
      → (commit now true false m).1 ≡ true
  unfolding commit similar Flash.update
  unchanged_value_written now m same apart due = ground arith
