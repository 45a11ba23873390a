-- ===== src/Mppt/Protect.antt =====
-- `MpptController::protect` and `protectLf` of src/mppt.h: the checks that shut the converter down.
use fugu_mppt_firmware.Prelude.{
  ℕ, ◌*◌, ◌/◌, Bool, true, false, ◌&&◌, ◌||◌, not, ltb, if◌then◌else◌, ◌∷◌,
}
use fugu_mppt_firmware.Float.{Float, f1, std_min, std_max}
use fugu_mppt_firmware.Converter.{disabled, get_duty_cycle}
use fugu_mppt_firmware.Converter.Rect.{sync_rect_min_duty, update_sync_rect_max_duty}
use fugu_mppt_firmware.Charger.Params.{have_vbat_max}
use fugu_mppt_firmware.Sampler.Calibrating.{start_calibration}
use fugu_mppt_firmware.Mppt.{Mppt, show_overvoltage, avg, physical_i}
use fugu_mppt_firmware.Mppt.Backflow.{present}
use fugu_mppt_firmware.Mppt.Backoff.{shutdown_dcdc, disable_switch}
use fugu_mppt_firmware.Mppt.Tracking.{since_ms}

-- `return false`, or on to the next check.
pub data Checked (F : Type 0) : Type 0 where
  tripped passed : Mppt F → Checked F

infixl 10 ◌>>=◌
abbrev pub ◌>>=◌ : {F : Type 0} → Checked F → (Mppt F → Checked F) → Checked F
tripped m >>= f = tripped m
passed m >>= f = f m

module _ {F : Type 0} ⦃fl : Float F⦄ where
  open fl use {sub, mul, neg, lt, fmin, is_nan, nan, dec, of_int}

  -- A check that shuts down, for `backoff_sec`, if `test` holds.
  abbrev pub trip_if : (now backoff_sec : ℕ) → Bool → Mppt F → Checked F
  trip_if now backoff_sec test m =
      if test then tripped (shutdown_dcdc now backoff_sec m) else passed m

  abbrev pub vin_over_voltage : Mppt F → Bool
  vin_over_voltage m = lt m.limits.vin_max m.sampler.vin.last

  -- `ovTh`
  abbrev pub over_voltage_threshold : Mppt F → F
  over_voltage_threshold m =
      let scale : F = if m.limits.reverse_current_paranoia then dec 103 2 else dec 15 1 in
      if have_vbat_max m.charger.params
      then std_min (mul m.charger.params.vbat_max scale) m.limits.vout_max
      else m.limits.vout_max

  -- After 20 s of the condition, the battery voltage is detected anew.
  abbrev pub redetect : ℕ → Mppt F → Mppt F
  redetect now m =
      if m.auto_detect_vout_max && ltb 20_000 (since_ms (now / 1000) m.last_time_protect_passed)
      then (record m {
        charger = record (m.charger) { params = record (m.charger.params) { vbat_max = nan } };
        sampler = start_calibration m.sampler;
      })
      else m

  unfoldable pub check_vout : ℕ → Mppt F → Checked F
  check_vout now m =
      if lt (over_voltage_threshold m) m.sampler.vout.last
      then (let off = redetect now (shutdown_dcdc now 5 m) in
          tripped (record off { tasks = show_overvoltage ∷ off.tasks }))
      else passed m

  abbrev pub iin_over_current : Mppt F → Bool
  iin_over_current m =
      lt (mul m.limits.iin_max (dec 13 1)) m.sampler.iin.last && not (disabled m.converter)

  abbrev pub iout_over_current : Mppt F → Bool
  iout_over_current m =
      (lt (mul m.limits.iout_max (dec 15 1)) m.sampler.iout.last
        || lt (mul m.limits.iout_max (dec 125 2)) m.sampler.iout.med3.last
        || lt (mul m.limits.iout_max (dec 115 2)) (avg m.sampler.iout))
      && not (disabled m.converter)

  abbrev open_rectifier : Mppt F → Mppt F
  open_rectifier m = record (disable_switch m) { converter = sync_rect_min_duty m.converter }

  -- Two reverse samples: a shutdown if the average is high, otherwise the switch and the rectifier
  -- are opened. Neither returns.
  unfoldable pub check_reverse : ℕ → Mppt F → Checked F
  check_reverse now m =
      if lt (physical_i m).last (neg f1)
        && lt (physical_i m).previous (neg f1)
        && not m.converter.forced_pwm
      then (if lt (dec 10 0) (avg m.sampler.iout)
          then passed (shutdown_dcdc now 5 m)
          else passed (open_rectifier m))
      else passed m

  abbrev pub reverse_average : Mppt F → Bool
  reverse_average m = lt (avg (physical_i m)) (neg f1)

  abbrev pub vout_above_vin_avg : Mppt F → Bool
  vout_above_vin_avg m = lt (mul (fl.add (avg m.sampler.vin) f1) (dec 125 2)) (avg m.sampler.vout)

  abbrev pub vout_above_twice_vin : Mppt F → Bool
  vout_above_twice_vin m =
      lt (mul (fl.add m.sampler.vin.last (dec 5 1)) (dec 2 0)) m.sampler.vout.last

  -- A low current opens the switch and the rectifier.
  abbrev pub guard_low_current : Mppt F → Mppt F
  guard_low_current m =
      let i = physical_i m in
      if lt (fmin (avg i) (std_max i.last i.previous)) (neg (dec 5 2))
        && m.limits.reverse_current_paranoia
      then open_rectifier m
      else m

  unfoldable pub check_buck : ℕ → Mppt F → Checked F
  check_buck now m =
      if m.converter.config.is_boost
      then passed m
      else (trip_if now 5 (vout_above_vin_avg m) m
          >>= (λ m1. trip_if now 5 (vout_above_twice_vin m1) m1)
          >>= (λ m2. passed (guard_low_current m2)))

  abbrev pub short_circuit : Mppt F → Bool
  short_circuit m = lt m.limits.ishort (avg m.sampler.iout) && lt (avg m.sampler.vout) f1

  -- The switch is open, or the duty is too small to drive it.
  abbrev pub switch_open : Mppt F → Bool
  switch_open m = present m.bflow && (not m.bflow.on || lt (get_duty_cycle m.converter) (dec 1 1))

  unfoldable pub check_switch : ℕ → Mppt F → Checked F
  check_switch now m =
      if switch_open m
      then (trip_if now 5 (lt (dec 6 0) (avg (physical_i m))) m
          >>= (λ m1. trip_if now 5 (lt (dec 33 2) (get_duty_cycle m1.converter)) m1))
      else passed m

  abbrev pub diode_over_current : Mppt F → Bool
  diode_over_current m = not m.converter.sync_rect_enabled && lt (dec 6 0) (avg (physical_i m))

  -- The output voltage is too low for the duty cycle.
  abbrev pub voltage_ratio_fails : F → Mppt F → Bool
  voltage_ratio_fails vr m =
      let small = lt (avg (physical_i m)) (mul m.limits.iout_max (dec 1 2)) in
      let duty = get_duty_cycle m.converter in
      small
      && ltb (m.converter.config.pwm_rect_min * 2) m.converter.pwm_ctrl
      && (if m.converter.forced_pwm
          then lt (avg m.sampler.vout) f1 || lt vr (mul duty (dec 5 1))
          else lt vr (mul duty (dec 8 1)))
      && m.limits.reverse_current_paranoia

  unfoldable pub check_ratio : ℕ → Mppt F → Checked F
  check_ratio now m =
      let il : F = if m.converter.config.is_boost then avg m.sampler.iin else avg m.sampler.iout in
      let (converter, vr) =
        update_sync_rect_max_duty (avg m.sampler.vin) (avg m.sampler.vout) il m.converter in
      let m' : Mppt F = record m { converter = converter } in
      trip_if now 5 (voltage_ratio_fails vr m') m'

  -- The checks in their order, up to the note of the time.
  unfoldable pub checks : ℕ → Mppt F → Checked F
  checks now m =
      trip_if now 5 (vin_over_voltage m) m
      >>= check_vout now
      >>= (λ m1. trip_if now 5 (iin_over_current m1) m1)
      >>= (λ m2. trip_if now 30 (iout_over_current m2) m2)
      >>= check_reverse now
      >>= (λ m3. trip_if now 5 (reverse_average m3) m3)
      >>= check_buck now
      >>= (λ m4. trip_if now 30 (short_circuit m4) m4)
      >>= check_switch now
      >>= (λ m5. trip_if now 5 (diode_over_current m5) m5)
      >>= check_ratio now

  abbrev pub finish : ℕ → Checked F → Mppt F × Bool
  finish now (tripped m) = (m, false)
  finish now (passed m) = (record m { last_time_protect_passed = now / 1000 }, true)

  unfoldable pub protect : ℕ → Mppt F → Mppt F × Bool
  protect now m = finish now (checks now m)
