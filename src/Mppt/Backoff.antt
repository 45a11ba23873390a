-- ===== src/Mppt/Backoff.antt =====
-- The shutdown of `MpptController` of src/mppt.h with its backoff, and what may start the converter.
use fugu_mppt_firmware.Prelude.{
  ℕ, ◌+◌, ◌*◌, Bool, true, false, ◌||◌, not, ltb, ◌==◌, u64, if◌then◌else◌, Option, none, some,
}
use fugu_mppt_firmware.Float.{Float, f0, f1, std_max}
use fugu_mppt_firmware.Signal.Pd
use fugu_mppt_firmware.Converter.Perturb.{disable}
use fugu_mppt_firmware.Charger.Pinning
use fugu_mppt_firmware.Sampler.Calibrating
use fugu_mppt_firmware.Mppt.{Mppt, ControlMode, no_mode, cv, avg}
use fugu_mppt_firmware.Mppt.Backflow

-- What blocks a start, in the order of the tests.
pub data BlockReason : Type 0 where
  in_backoff_ too_hot vin_vout supply_uv calibrating_ : BlockReason

abbrev leave_cv : ControlMode → ControlMode
leave_cv cv = no_mode
leave_cv mode = mode

abbrev is_none : Option BlockReason → Bool
is_none none = true
is_none _ = false

module _ {F : Type 0} where
  -- `inBackoff`, at the clock `now`
  unfoldable pub in_backoff : ℕ → Mppt F → Bool
  in_backoff now m = ltb now m.backoff_until_us

  unfoldable pub clear_backoff : Mppt F → Mppt F
  clear_backoff m = record m { backoff_until_us = 0; backoff_armed_sec = 0 }

  abbrev pub disable_switch : Mppt F → Mppt F
  disable_switch m = record m { bflow = Backflow.enable false m.bflow }

  abbrev pub disable_converter : Mppt F → Mppt F
  disable_converter m = record m { converter = disable m.converter }

  -- The switch and the converter go off, in the order of the topology.
  unfoldable pub power_off : Mppt F → Mppt F
  power_off m =
      if m.backflow_at_hv
      then disable_switch (disable_converter m)
      else disable_converter (disable_switch m)

  -- The backoff is armed on its entry, and again for a longer one only.
  unfoldable pub arm_backoff : ℕ → ℕ → Mppt F → Mppt F
  arm_backoff now backoff_sec m =
      if not (in_backoff now m) || ltb m.backoff_armed_sec backoff_sec
      then (record m {
        backoff_until_us = u64 (now + backoff_sec * 1_000_000);
        backoff_armed_sec = backoff_sec;
      })
      else m

  unfoldable pub shutdown_dcdc : (now backoff_sec : ℕ) → Mppt F → Mppt F
  shutdown_dcdc now backoff_sec m =
      let off = power_off m in
      if backoff_sec == 0
      then off
      else record (arm_backoff now backoff_sec off) { sweeping = false }

module _ {F : Type 0} ⦃fl : Float F⦄ where
  open fl use {sub, lt, is_nan, dec}

  unfoldable pub abort_sweep : Mppt F → Mppt F
  abort_sweep m = record m {
    sweeping = false;
    max_power_point = record { power = f0; voltage = f0; duty_cycle = 0 };
    target_duty_cycle = 0;
  }

  -- The value is whether the charger's pin moved.
  unfoldable pub release_cv_floor_latch : Mppt F → Mppt F × Bool
  release_cv_floor_latch m =
      let (charger, changed) = Pinning.release_vout_pinning m.charger in
      let m' : Mppt F = record m {
        charger = charger;
        vout_controller = Pd.reset m.vout_controller;
        limiting = false;
        lim_idx = 15;
        mode = leave_cv m.mode;
        target_duty_cycle = 0;
      } in
      (clear_backoff m', changed)

  unfoldable pub board_power_supply_voltage : Mppt F → F
  board_power_supply_voltage m = sub (std_max m.sampler.vin.last m.sampler.vout.last) (dec 3 1)

  unfoldable pub board_power_supply_under_voltage : (start : Bool) → Mppt F → Bool
  board_power_supply_under_voltage start m =
      if is_nan m.sampler.vin.last || is_nan m.sampler.vout.last
      then false
      else lt (board_power_supply_voltage m) (if start then dec 95 1 else dec 9 0)

  abbrev too_hot_to_start : Mppt F → Bool
  too_hot_to_start m =
      let knee = sub m.limits.temp_max (dec 3 0) in lt knee m.ntc || not (lt m.uc_temp knee)

  -- The voltages allow the conversion: a buck's input is above its output, a boost's below.
  abbrev pub voltages_fit : Mppt F → Bool
  voltages_fit m =
      let above = fl.add (avg m.sampler.vout) f1 in
      if m.converter.config.is_boost
      then lt (avg m.sampler.vin) above
      else lt above (avg m.sampler.vin)

  unfoldable pub start_block_reason : ℕ → Mppt F → Option BlockReason
  start_block_reason now m =
      if in_backoff now m
      then some in_backoff_
      else if too_hot_to_start m
      then some too_hot
      else if not (voltages_fit m)
      then some vin_vout
      else if board_power_supply_under_voltage true m
      then some supply_uv
      else if Calibrating.is_calibrating m.sampler
      then some calibrating_
      else none

  unfoldable pub start_condition : ℕ → Mppt F → Bool
  start_condition now m = is_none (start_block_reason now m)
