-- ===== src/Converter/Rect.antt =====
-- The rectifier side of `SynchronousConverter` (src/buck.h): `computePwmRectMax`, the ripple current,
-- the choice between DCM and CCM, and the diode emulation that follows from it.
use fugu_mppt_firmware.Prelude.{
  ℕ, ◌+◌, ◌-◌, min, max, Bool, not, ◌&&◌, ◌||◌, ltb, u16, if◌then◌else◌,
}
use fugu_mppt_firmware.Prelude.Int.{pos, ltb_ℤ, u16_of_int}
use fugu_mppt_firmware.Float.{Float, std_min, std_max, fconstrain, f0, f1}
use fugu_mppt_firmware.Converter.{Converter, manual_rect_}
use fugu_mppt_firmware.Converter.Driver.{drv_commit_ls_off}

module _ {F : Type 0} where
  -- `driverPwmMax - pwmCtrl - 1` as `uint16_t`: it wraps if the ctrl on-time fills the period.
  abbrev pub rest_of_period : Converter F → ℕ
  rest_of_period c = u16 (c.config.driver_pwm_max + 65535 - c.pwm_ctrl)

  abbrev pub clamp_rect_max : ℕ → Converter F → Converter F
  clamp_rect_max raw c = record c {
    pwm_rect_max = min (max c.config.pwm_rect_min raw) (rest_of_period c);
  }

module _ {F : Type 0} ⦃fl : Float F⦄ where
  open fl use {add, sub, mul, div, lt, dec, of_int, lround}

  -- The DCM arm of `computePwmRectMax`, up to the last clamp. The fallback rounds without feedback.
  abbrev pub dcm_rect_max : Converter F → Converter F
  dcm_rect_max c =
      let ideal =
        add (mul (of_int (pos c.pwm_ctrl)) c.pwm_rect_ratio_dcm) (of_int c.rect_on_offset) in
      let v = add ideal c.rect_dither_err in
      let ls = lround v in
      if c.config.rect_dither
      then (clamp_rect_max (u16_of_int (if ltb_ℤ (pos 0) ls then ls else pos 0))
          (record c { rect_dither_err = sub v (of_int ls) }))
      else clamp_rect_max (u16_of_int (lround ideal)) c

  unfoldable pub compute_pwm_rect_max : Converter F → Converter F
  compute_pwm_rect_max c =
      if c.dcm_hysteresis then dcm_rect_max c else clamp_rect_max (rest_of_period c) c

  unfoldable pub ripple_current : Converter F → F → F → F
  ripple_current c hv lv = mul (div lv c.config.fl_product) (sub f1 (div lv hv))

  -- `computeDCM`
  unfoldable pub compute_dcm : F → F → F → Converter F → Converter F × Bool
  compute_dcm vh vl il c =
      let ir = ripple_current c vh vl in
      let ratio : F = if c.dcm_hysteresis then dec 18 1 else dec 20 1 in
      let dcm = (lt (mul il ratio) ir || lt il (dec 1 1)) && not c.forced_pwm in
      (record c { dcm_hysteresis = dcm }, dcm)

  unfoldable pub rect_ctrl_ratio : Converter F → F → F
  rect_ctrl_ratio c m = if c.config.is_boost then div f1 (sub m f1) else sub (div f1 m) f1

  -- `voltageRatioWCEF`: both voltages read one percent wrong, to the unsafe side.
  abbrev voltage_ratio_wcef : F
  voltage_ratio_wcef = div (sub f1 (dec 1 2)) (add f1 (dec 1 2))

  -- `convRatioWCE`: the conversion ratio under the worst-case error, kept on its side of 1.
  unfoldable pub conv_ratio_wce : Converter F → F → F → F
  conv_ratio_wce c vh vl =
      if c.config.is_boost
      then (std_max
          (div
            (if lt vl vh && lt (dec 1 1) vl
              then fconstrain (div vh vl) (dec 1 2) (dec 10 0)
              else dec 10 0)
            voltage_ratio_wcef)
          (add f1 (dec 1 2)))
      else (std_min
          (div
            (if lt vl vh && lt (dec 1 1) vh
              then fconstrain (div vl vh) (dec 1 2) (sub f1 (dec 1 2))
              else f1)
            voltage_ratio_wcef)
          (sub f1 (dec 1 2)))

  unfoldable pub compute_sync_rect_ratio : F → F → F → Converter F → Converter F
  compute_sync_rect_ratio vh vl il c =
      let ratio = conv_ratio_wce c vh vl in
      let (c', dcm) = compute_dcm vh vl il (record c { out_in_voltage_ratio = ratio }) in
      if dcm
      then (record c' {
        pwm_rect_ratio_dcm =
            if lt il (dec 1 2) || lt vl (dec 10 1) then f0 else rect_ctrl_ratio c' ratio;
      })
      else c'

  -- `updateSyncRectMaxDuty`. The limit takes effect at once where it falls below the on-time.
  abbrev pub clamp_rect : Converter F → Converter F
  clamp_rect c =
      if ltb c.pwm_rect_max c.pwm_rect
      then drv_commit_ls_off c.pwm_ctrl c.pwm_rect_max (record c { pwm_rect = c.pwm_rect_max })
      else c

  unfoldable pub update_sync_rect_max_duty : F → F → F → Converter F → Converter F × F
  update_sync_rect_max_duty vin vout il c =
      let vh : F = if c.config.is_boost then vout else vin in
      let vl : F = if c.config.is_boost then vin else vout in
      let c1 = compute_sync_rect_ratio vh vl il c in
      if manual_rect_ c1
      then (c1, c1.out_in_voltage_ratio)
      else (let c2 = clamp_rect (compute_pwm_rect_max c1) in (c2, c2.out_in_voltage_ratio))

module _ {F : Type 0} where
  -- Sets the rectifier's on-time to its minimum.
  unfoldable pub sync_rect_min_duty : Converter F → Converter F
  sync_rect_min_duty c =
      if ltb c.config.pwm_rect_min c.pwm_rect
      then (drv_commit_ls_off c.pwm_ctrl c.config.pwm_rect_min
          (record c { pwm_rect = c.config.pwm_rect_min }))
      else c

  unfoldable pub enable_sync_rect : (enable overwrite_fpwm : Bool) → Converter F → Converter F
  enable_sync_rect enable overwrite_fpwm c =
      let on = enable || (c.forced_pwm && not overwrite_fpwm) in
      let c' = record c { sync_rect_enabled = on } in if on then c' else sync_rect_min_duty c'
