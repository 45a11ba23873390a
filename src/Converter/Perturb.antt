-- ===== src/Converter/Perturb.antt =====
-- The methods of `SynchronousConverter` (src/buck.h) that move or drop the duty cycle: `pwmPerturb`,
-- `pwmPerturbFractional`, `disable` and `shortLs`.
use fugu_mppt_firmware.Prelude.{
  ◌+◌, ◌/◌, Bool, true, false, not, ◌&&◌, ltb, ◌==◌, if◌then◌else◌, [], ◌∷◌, Option, none, some,
}
use fugu_mppt_firmware.Prelude.Int.{
  ℤ, pos, negsuc, pos_part, neg_part, ◌+ℤ◌, ◌-ℤ◌, ltb_ℤ, sub_ℕ, div_ℤ, u16_of_int, i16_of_int,
  constrain,
}
use fugu_mppt_firmware.Float.{Float, f0}
use fugu_mppt_firmware.Converter.{Converter, digital_write, disabled, has_pin_sd, manual_rect_}
use fugu_mppt_firmware.Converter.Driver.{
  emit, drv_commit, drv_commit_ls_off, drv_shutdown, drv_short_ls,
}
use fugu_mppt_firmware.Converter.Rect.{compute_pwm_rect_max}

-- The test `directionInt != 0`, negated.
abbrev pub is_zero : ℤ → Bool
is_zero z = pos_part z + neg_part z == 0

module _ {F : Type 0} where
  -- `-direction > driverPwmMax / 50`
  abbrev pub is_larger_decrease : Converter F → ℤ → Bool
  is_larger_decrease c direction = ltb_ℤ (pos (c.config.driver_pwm_max / 50)) (pos 0 -ℤ direction)

  -- The bench override: the low side is held at the requested count.
  abbrev pub hold_manual : Converter F → Converter F
  hold_manual c = record c {
    pwm_rect = u16_of_int (
        constrain c.manual_rect (pos c.config.pwm_rect_min)
          (sub_ℕ c.config.driver_pwm_max (c.pwm_ctrl + 1)));
  }

  -- The step of the "fade-in": slow near the minimum, then by a 64th of the way.
  abbrev pub fade_step : Converter F → ℤ
  fade_step c =
      pos 1
      +ℤ (if ltb (c.config.pwm_rect_min + c.config.driver_pwm_max / 64) c.pwm_rect
          then div_ℤ (sub_ℕ c.pwm_rect_max c.pwm_rect) 64
          else pos 0)

  abbrev pub fade_in : Converter F → Converter F
  fade_in c = record c {
    pwm_rect =
        if c.sync_rect_enabled
        then u16_of_int (
            constrain (pos c.pwm_rect +ℤ fade_step c) (pos c.config.pwm_rect_min)
              (pos c.pwm_rect_max))
        else c.config.pwm_rect_min;
  }

  abbrev pub move_ctrl : ℤ → Converter F → Converter F
  move_ctrl direction c = record c {
    pwm_ctrl = u16_of_int (
        constrain (pos c.pwm_ctrl +ℤ direction) (pos c.config.pwm_ctrl_min)
          (pos c.config.pwm_ctrl_max));
  }

  -- The driver's shutdown pin is released when the converter leaves the disabled state.
  abbrev pub release_sd : Bool → Converter F → Converter F
  release_sd enabling c =
      if enabling && has_pin_sd c then emit (digital_write c.config.pin_sd false ∷ []) c else c

  -- `disabled() and direction > 0`
  unfoldable pub is_enabling : Converter F → ℤ → Bool
  is_enabling c direction = disabled c && ltb_ℤ (pos 0) direction

  -- `pwmPerturb` up to the update of `pwmRect`.
  unfoldable pub start_move : ℤ → Converter F → Converter F
  start_move direction c = move_ctrl direction (release_sd (is_enabling c direction) c)

module _ {F : Type 0} ⦃fl : Float F⦄ where
  open fl use {add, sub, fabs, le, of_int, to_int}

  -- The block that updates `pwmRect`, behind the move of `pwmCtrl`.
  unfoldable pub update_rect : Bool → Converter F → Converter F
  update_rect larger_decrease c =
      if manual_rect_ c
      then hold_manual c
      else (if larger_decrease && not c.forced_pwm
          then (let c' = compute_pwm_rect_max (record c { dcm_hysteresis = true }) in
              record c' { pwm_rect = c'.config.pwm_rect_min })
          else fade_in (compute_pwm_rect_max c))

  unfoldable pub pwm_perturb : ℤ → Converter F → Converter F
  pwm_perturb direction c =
      let larger_decrease = is_larger_decrease c direction in
      drv_commit (is_enabling c direction) larger_decrease (ltb_ℤ direction (pos 0))
        (update_rect larger_decrease (start_move direction c))

  -- `none` is the exception `std::out_of_range`, which leaves the converter as it was. A number out of
  -- the range of `int16_t` is narrowed as an `int` is, as the processor does it.
  unfoldable pub pwm_perturb_fractional : F → Converter F → Option (Converter F)
  pwm_perturb_fractional direction c =
      if le (fabs direction) (of_int (pos c.config.driver_pwm_max))
      then (let total = add direction c.direction_float_buffer in
          let whole = i16_of_int (to_int total) in
          let c1 = record c { direction_float_buffer = f0 } in
          let c2 = if is_zero whole then c1 else pwm_perturb whole c1 in
          some (record c2 {
            direction_float_buffer = add c2.direction_float_buffer (sub total (of_int whole));
          }))
      else none

module _ {F : Type 0} where
  unfoldable pub disable : Converter F → Converter F
  disable c =
      let c1 =
        drv_shutdown
          (if has_pin_sd c then emit (digital_write c.config.pin_sd true ∷ []) c else c) in
      record c1 { pwm_ctrl = 0; pwm_rect = 0; sync_rect_enabled = false }

  unfoldable pub short_ls : Converter F → Converter F
  short_ls c =
      let c1 = drv_short_ls (disable c) in
      if has_pin_sd c1 then emit (digital_write c1.config.pin_sd false ∷ []) c1 else c1

  -- Pins the low side to `ls` counts; a negative `ls` gives it back to the diode emulation.
  unfoldable pub set_manual_rect : ℤ → Converter F → Converter F
  set_manual_rect ls c =
      if ltb_ℤ ls (pos 0)
      then record c { manual_rect = negsuc 0 }
      else (let held =
            constrain ls (pos c.config.pwm_rect_min)
              (sub_ℕ c.config.driver_pwm_max (c.pwm_ctrl + 1)) in
          let c1 = record c { manual_rect = held; pwm_rect = u16_of_int held } in
          drv_commit_ls_off c1.pwm_ctrl c1.pwm_rect c1)
