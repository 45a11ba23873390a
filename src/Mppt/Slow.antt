-- ===== src/Mppt/Slow.antt =====
-- `MpptController::protectLf` of src/mppt.h: the checks of the slow loop.
use fugu_mppt_firmware.Prelude.{ℕ, Bool, true, false, ◌&&◌, ◌||◌, not, if◌then◌else◌, ◌∷◌}
use fugu_mppt_firmware.Float.{Float, std_min}
use fugu_mppt_firmware.Charger.Params.{have_vbat_max}
use fugu_mppt_firmware.Charger.Detect.{detect_max_battery_voltage}
use fugu_mppt_firmware.Mppt.{Mppt, Task, commit_meter, queue_calibration}
use fugu_mppt_firmware.Mppt.Backoff.{
  shutdown_dcdc, disable_converter, board_power_supply_under_voltage,
}
use fugu_mppt_firmware.Mppt.Protect.{Checked, tripped, passed, ◌>>=◌}

module _ {F : Type 0} ⦃fl : Float F⦄ where
  open fl use {lt, is_nan}

  abbrev queue : Task → Mppt F → Mppt F
  queue task m = record m { tasks = task ∷ m.tasks }

  abbrev set_vbat_max : F → Mppt F → Mppt F
  set_vbat_max v m = record m {
    charger = record (m.charger) { params = record (m.charger.params) { vbat_max = v } };
  }

  -- The supply, the battery voltage, which is detected if it is not known, and the temperatures.
  abbrev pub check_supply : (now : ℕ) (ignore_uv : Bool) → Mppt F → Checked F
  check_supply now ignore_uv m =
      if board_power_supply_under_voltage false m && not ignore_uv
      then tripped (queue commit_meter (shutdown_dcdc now 5 m))
      else passed m

  abbrev pub check_battery : Mppt F → Checked F
  check_battery m =
      let detected = detect_max_battery_voltage m.sampler.vout.calibration_avg in
      if have_vbat_max m.charger.params
      then passed m
      else if is_nan detected
      then tripped (queue queue_calibration (disable_converter m))
      else passed (set_vbat_max (std_min m.limits.vout_max detected) m)

  abbrev pub check_temperature : Mppt F → Checked F
  check_temperature m =
      if lt m.limits.temp_max m.ntc || lt m.limits.temp_max m.uc_temp then tripped m else passed m

  abbrev pub outcome : Checked F → Mppt F × Bool
  outcome (tripped m) = (m, false)
  outcome (passed m) = (m, true)

  unfoldable pub protect_lf : (now : ℕ) (ignore_uv : Bool) → Mppt F → Mppt F × Bool
  protect_lf now ignore_uv m =
      outcome (check_supply now ignore_uv m >>= check_battery >>= check_temperature)
