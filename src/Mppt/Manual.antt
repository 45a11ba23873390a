-- ===== src/Mppt/Manual.antt =====
-- `MpptController::updateManual` and `updateCV` of src/mppt.cpp: the duty that the user set, and the
-- constant-voltage loop under the duty of the configuration.
use fugu_mppt_firmware.Prelude.{
  ℕ, ◌+◌, ◌/◌, ◌>>=◌, Bool, true, false, ◌&&◌, ◌||◌, not, ltb, leb, ◌==◌, if◌then◌else◌, Option,
  some, max,
}
use fugu_mppt_firmware.Prelude.Int.{pos, neg_part, pos_part, sub_ℕ, ltb_ℤ, constrain}
use fugu_mppt_firmware.Float.{Float, f1, fconstrain}
use fugu_mppt_firmware.Signal.Pd
use fugu_mppt_firmware.Signal.Integrator.{elapsed}
use fugu_mppt_firmware.Converter.{disabled, get_duty_cycle, get_pwm_tick_rate}
use fugu_mppt_firmware.Converter.Perturb.{pwm_perturb, pwm_perturb_fractional, is_zero}
use fugu_mppt_firmware.Converter.Rect.{enable_sync_rect}
use fugu_mppt_firmware.Converter.Timing.{pwm_counts_from_ns}
use fugu_mppt_firmware.Charger.Pinning.{vout_max}
use fugu_mppt_firmware.Mppt.{Mppt, no_mode, cv, avg, physical_i}
use fugu_mppt_firmware.Mppt.Backflow
use fugu_mppt_firmware.Mppt.Backoff.{shutdown_dcdc, in_backoff, disable_converter}
use fugu_mppt_firmware.Mppt.Control.{current_threshold, update_mppt}

module _ {F : Type 0} ⦃fl : Float F⦄ where
  open fl use {sub, mul, div, neg, lt, fabs, is_finite, dec, of_int, to_int, lround}

  abbrev of_ℕ : ℕ → F
  of_ℕ n = of_int (pos n)

  abbrev pub ramp_counts : Mppt F → ℕ
  ramp_counts m =
      max 1 (pos_part (lround (div (of_ℕ m.converter.config.driver_pwm_max) (dec 512 0))))

  abbrev pub ramp_down : Mppt F → Mppt F
  ramp_down m =
      if disabled m.converter
      then m
      else if leb m.converter.pwm_ctrl m.converter.config.pwm_ctrl_min
      then disable_converter m
      else record m { converter = pwm_perturb (sub_ℕ 0 (ramp_counts m)) m.converter }

  abbrev pub prepare_start : Mppt F → Mppt F
  prepare_start m =
      if disabled m.converter && not m.limits.reverse_current_paranoia
      then (record m {
        converter = enable_sync_rect true false m.converter;
        bflow = Backflow.enable true m.bflow;
      })
      else m

  abbrev pub ramp_towards : Mppt F → Mppt F
  ramp_towards m =
      let step =
        constrain (sub_ℕ m.manual_target m.converter.pwm_ctrl) (sub_ℕ 0 (ramp_counts m))
          (pos (ramp_counts m)) in
      if is_zero step then m else record m { converter = pwm_perturb step m.converter }

  abbrev pub noted : ℕ → Mppt F → Mppt F
  noted now m = record m { last_us = now; mode = no_mode }

  unfoldable pub update_manual : ℕ → Mppt F → Mppt F
  update_manual now m =
      if in_backoff now m
      then (if disabled m.converter then noted now m else disable_converter (noted now m))
      else if m.manual_target == 0
      then ramp_down (noted now m)
      else ramp_towards (prepare_start (noted now m))

  abbrev pub cv_above_threshold : Mppt F → Bool
  cv_above_threshold m =
      let i = avg (physical_i m) in
      lt (current_threshold m) i
      || lt (neg (dec 1 2)) i && lt (dec 3 1) (get_duty_cycle m.converter)

  -- The loop is slowed down at short on-times of the control switch.
  abbrev low_duty_gain : Mppt F → F
  low_duty_gain m =
      let rate = get_pwm_tick_rate m.converter in
      if ltb_ℤ (pos m.converter.pwm_ctrl) (pwm_counts_from_ns (dec 2000 0) rate)
      then dec 1 2
      else if ltb_ℤ (pos m.converter.pwm_ctrl) (pwm_counts_from_ns (dec 2500 0) rate)
      then dec 4 2
      else dec 10 0

  abbrev to_target : Mppt F → F
  to_target m = sub (of_ℕ m.target_pwm_cnt) (of_ℕ m.converter.pwm_ctrl)

  -- Not past the target, and onto it from near by.
  abbrev lock_in : F → Mppt F → F
  lock_in fp m =
      let near = m.converter.config.pwm_ctrl_max / 512 in
      let apart =
        neg_part (sub_ℕ m.converter.pwm_ctrl m.target_pwm_cnt)
        + pos_part (sub_ℕ m.converter.pwm_ctrl m.target_pwm_cnt) in
      let held : F =
        if lt (of_ℕ m.target_pwm_cnt) (fl.add fp (of_ℕ m.converter.pwm_ctrl))
        then to_target m
        else fp in
      if not (m.target_pwm_cnt == 0) && ltb apart near && ltb_ℤ (to_int (fabs held)) (pos near)
      then to_target m
      else held

  abbrev pub cv_perturbation : (now : ℕ) → F → Mppt F → F
  cv_perturbation now value m =
      let top = of_ℕ m.converter.config.pwm_ctrl_max in
      let scaled =
        mul (mul (mul value (div f1 (dec 10000 0))) top) (of_ℕ (elapsed now m.last_us)) in
      let fp = mul (mul (mul (mul scaled (dec 1 6)) (dec 25 0)) (dec 2 0)) (low_duty_gain m) in
      fconstrain (lock_in fp m) (neg (of_ℕ m.converter.pwm_ctrl))
        (div (mul (dec 16 0) top) (dec 2000 0))

  abbrev pub cv_perturb : (now : ℕ) → F → Mppt F → Option (Mppt F)
  cv_perturb now value m =
      if m.last_us == 0
      then some m
      else (pwm_perturb_fractional (cv_perturbation now value m) m.converter
          >>= (λ c. some (record m { converter = c })))

  abbrev pub cv_finish : (now : ℕ) (above : Bool) → Mppt F → Mppt F
  cv_finish now above m = record m {
    last_us = now;
    bflow = Backflow.enable above m.bflow;
    converter = enable_sync_rect above false m.converter;
  }

  -- `none` is the exception of `pwmPerturbFractional`.
  unfoldable pub update_cv : ℕ → Mppt F → Option (Mppt F)
  update_cv now m0 =
      let (pd, value) = Pd.update m0.sampler.vout.last (vout_max m0.charger) m0.vout_controller in
      let m : Mppt F = record m0 { vout_controller = pd; mode = cv; cntrl_value = value } in
      if not (is_finite value)
      then some (if disabled m.converter then m else shutdown_dcdc now 5 m)
      else cv_perturb now value m >>= (λ m1. some (cv_finish now (cv_above_threshold m) m1))

  -- `update`
  unfoldable pub update : ℕ → Mppt F → Option (Mppt F)
  update now m = if m.target_pwm_cnt == 0 then update_mppt now m else update_cv now m
