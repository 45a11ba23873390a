-- ===== src/Mppt/Sweeping.antt =====
-- The global scan of src/mppt.h: `startSweep`, `_stopSweep` and the targets that follow it.
use fugu_mppt_firmware.Prelude.{
  ℕ, ◌+◌, ◌<◌, ◌≡◌, ◌⊎◌, inl, inr, true, false, ◌&&◌, arith, ltb, if◌then◌else◌, ◌∷◌, Bool-cases,
  min,
}
use fugu_mppt_firmware.Float.{Float, f0}
use fugu_mppt_firmware.Signal.Pd
use fugu_mppt_firmware.Converter.{disabled}
use fugu_mppt_firmware.Converter.Perturb.{disable}
use fugu_mppt_firmware.Sampler.Calibrating.{start_calibration}
use fugu_mppt_firmware.Mppt.{Mppt, PowerPoint, prepare_sweep, show_sweep}
use fugu_mppt_firmware.Mppt.Backflow
use fugu_mppt_firmware.Mppt.Backoff.{
  shutdown_dcdc, in_backoff, disable_converter, power_off, arm_backoff,
}

module _ {F : Type 0} ⦃fl : Float F⦄ where
  open fl use {lt, le, dec}

  -- `SweepMinPower`
  abbrev pub sweep_min_power : F
  sweep_min_power = dec 5 0

  abbrev pub no_power_point : PowerPoint F
  no_power_point = record { power = f0; voltage = f0; duty_cycle = 0 }

  unfoldable pub start_sweep : Mppt F → Mppt F
  start_sweep m = record (disable_converter m) {
    sweeping = true;
    limiting = false;
    target_duty_cycle = 0;
    vin_controller = Pd.reset m.vin_controller;
    vout_controller = Pd.reset m.vout_controller;
    iin_controller = Pd.reset m.iin_controller;
    iout_current_controller = Pd.reset m.iout_current_controller;
    max_power_point = no_power_point;
    sampler = start_calibration m.sampler;
    tasks = prepare_sweep ∷ m.tasks;
  }

  -- A scan whose best power is below the least one commits no target.
  unfoldable pub stop_sweep : ℕ → Mppt F → Mppt F
  stop_sweep now m =
      if lt m.max_power_point.power sweep_min_power
      then shutdown_dcdc now 30 (record m { sweeping = false; target_duty_cycle = 0 })
      else (record m {
        sweeping = false;
        target_duty_cycle = m.max_power_point.duty_cycle;
        tasks = show_sweep ∷ m.tasks;
      })

  abbrev capped : ℕ → Mppt F → ℕ
  capped duty m =
      if ltb m.converter.config.pwm_ctrl_max duty then m.converter.config.pwm_ctrl_max else duty

  unfoldable pub set_manual_target : ℕ → Mppt F → Mppt F
  set_manual_target duty m = record m { manual_target = capped duty m }

  unfoldable pub set_auto_ramp_target : ℕ → Mppt F → Mppt F
  set_auto_ramp_target duty m = record m { target_duty_cycle = capped duty m }

  unfoldable pub clear_boot_target : Mppt F → Mppt F
  clear_boot_target m = record m { target_pwm_cnt = 0 }

  -- `update`'s capture of the best point, from the power and the input voltage.
  unfoldable pub capture_max : (power vin : F) → Mppt F → Mppt F
  capture_max power vin m =
      if lt m.max_power_point.power power && le sweep_min_power power
      then (record m {
        max_power_point = record {
          power = power;
          voltage = vin;
          duty_cycle = m.converter.pwm_ctrl;
        };
      })
      else m

  -- The end of a scan, outside a backoff and before the clock's wrap: either the best point's power is
  -- below the least one, and everything is off for half a minute with no target, or its duty cycle is
  -- the target and the converter runs on as it was.
  pub stop_sweep_lem :
      (now : ℕ) (m : Mppt F)
      → now + 30_000_000 < 18446744073709551616
      → in_backoff now m ≡ false
      → let m' = stop_sweep now m in
        (m'.sweeping ≡ false)
        × (((lt m.max_power_point.power sweep_min_power ≡ true)
              × (m'.target_duty_cycle ≡ 0)
              × (disabled m'.converter ≡ true)
              × (m'.bflow.on ≡ false)
              × (m'.backoff_until_us ≡ now + 30_000_000))
            ⊎ ((lt m.max_power_point.power sweep_min_power ≡ false)
                × (m'.target_duty_cycle ≡ m.max_power_point.duty_cycle)
                × (m'.converter ≡ m.converter)
                × (m'.backoff_until_us ≡ m.backoff_until_us)))
  unfolding stop_sweep shutdown_dcdc power_off arm_backoff in_backoff disabled disable
      Backflow.enable
  stop_sweep_lem now m w b = elim (Bool-cases (lt m.max_power_point.power sweep_min_power)) [
    | inl e ↦ ground arith
    | inr e ↦ ground arith
  ]

  -- A target never exceeds the longest on-time of the control switch.
  pub set_manual_target-bounded :
      (duty : ℕ) (m : Mppt F)
      → ((set_manual_target duty m).manual_target ≡ min duty m.converter.config.pwm_ctrl_max)
        × ((set_auto_ramp_target duty m).target_duty_cycle
            ≡ min duty m.converter.config.pwm_ctrl_max)
  unfolding set_manual_target set_auto_ramp_target
  set_manual_target-bounded duty m = ground arith
