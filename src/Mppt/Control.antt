-- ===== src/Mppt/Control.antt =====
-- `MpptController::update` of src/mppt.cpp: the control loop. The energy meter, the fan, the plots and
-- the LED, which only observe, are left out.
use fugu_mppt_firmware.Prelude.{
  ℕ, ◌+◌, ◌/◌, ◌>>=◌, Bool, true, false, ◌&&◌, ◌||◌, not, ltb, ◌==◌, if◌then◌else◌, Option, none,
  some, List, [], ◌∷◌,
}
use fugu_mppt_firmware.Prelude.Int.{pos, negsuc, sub_ℕ, constrain}
use fugu_mppt_firmware.Float.{Float, f0, f1, std_min, fconstrain}
use fugu_mppt_firmware.Signal.Pd
use fugu_mppt_firmware.Signal.Pd.{Pd}
use fugu_mppt_firmware.Signal.Sampled
use fugu_mppt_firmware.Signal.Integrator.{elapsed}
use fugu_mppt_firmware.Converter.{disabled, get_duty_cycle}
use fugu_mppt_firmware.Converter.Perturb.{pwm_perturb, pwm_perturb_fractional}
use fugu_mppt_firmware.Converter.Rect.{enable_sync_rect}
use fugu_mppt_firmware.Charger.Pinning.{vout_max, iout_max}
use fugu_mppt_firmware.Sampler.Calibrating.{is_calibrating}
use fugu_mppt_firmware.Mppt.{
  Mppt, ControlMode, no_mode, cv, cc, cp, mppt, sweep, avg, physical_i, physical_u,
}
use fugu_mppt_firmware.Mppt.Backflow
use fugu_mppt_firmware.Mppt.Tracking
use fugu_mppt_firmware.Mppt.Backoff.{shutdown_dcdc, in_backoff, start_condition}
use fugu_mppt_firmware.Mppt.Sweeping.{start_sweep, stop_sweep, capture_max}

-- The controllers, in the order of `controlValues`.
pub data Controller : Type 0 where
  vin_limit vout_limit iin_limit iout_limit power_limit : Controller

abbrev pub mode_of : Controller → ControlMode
mode_of vin_limit = cv
mode_of vout_limit = cv
mode_of iin_limit = cc
mode_of iout_limit = cc
mode_of power_limit = cp

abbrev pub index_of : Controller → ℕ
index_of vin_limit = 0
index_of vout_limit = 1
index_of iin_limit = 2
index_of iout_limit = 3
index_of power_limit = 4

abbrev pub controllers : List Controller
controllers = vin_limit ∷ vout_limit ∷ iin_limit ∷ iout_limit ∷ power_limit ∷ []

abbrev pub mode_by : Option Controller → ControlMode
mode_by none = no_mode
mode_by (some c) = mode_of c

abbrev pub index_by : Option Controller → ℕ
index_by none = 15
index_by (some c) = index_of c

abbrev pub is_idle : ControlMode → Bool
is_idle no_mode = true
is_idle _ = false

abbrev pub is_cv : ControlMode → Bool
is_cv cv = true
is_cv _ = false

-- The least control value so far, and the controller that gave it.
pub record Limiting (F : Type 0) : Type 0 where
  pub value : F
  pub by : Option Controller

-- A mode with its control value.
pub record Decision (F : Type 0) : Type 0 where
  pub mode : ControlMode
  pub value : F

module _ {F : Type 0} ⦃fl : Float F⦄ where
  open fl use {sub, mul, div, neg, lt, le, fabs, is_nan, is_finite, inf, dec, of_int}

  abbrev of_ℕ : ℕ → F
  of_ℕ n = of_int (pos n)

  abbrev pub power_smooth : Mppt F → F
  power_smooth m = mul (avg (physical_i m)) (avg (physical_u m))

  abbrev pub hottest : Mppt F → F
  hottest m = if lt m.ntc m.uc_temp then m.uc_temp else m.ntc

  -- The derating between the two knees. `none` is the failed assertion that the scale is below 1.
  unfoldable pub derated_power : Mppt F → Option F
  derated_power m =
      let scale =
        div (sub m.limits.temp_max (hottest m)) (sub m.limits.temp_max m.limits.temp_derate) in
      if lt m.limits.temp_derate (hottest m)
      then (if lt scale f1
          then some (mul m.limits.p_max (if lt scale f0 then f0 else scale))
          else none)
      else some (if is_nan (hottest m) then mul m.limits.p_max (dec 25 2) else m.limits.p_max)

  abbrev pub actual : Mppt F → Controller → F
  actual m vin_limit = m.sampler.vin.med3.last
  actual m vout_limit = if m.sweeping then avg m.sampler.vout else m.sampler.vout.med3.last
  actual m iin_limit = if m.sweeping then avg m.sampler.iin else m.sampler.iin.med3.last
  actual m iout_limit = if m.sweeping then avg m.sampler.iout else m.sampler.iout.med3.last
  actual m power_limit = power_smooth m

  abbrev pub target : F → Mppt F → Controller → F
  target limit m vin_limit = m.limits.vin_min
  target limit m vout_limit = vout_max m.charger
  target limit m iin_limit = m.limits.iin_max
  target limit m iout_limit = std_min m.limits.iout_max (iout_max m.charger)
  target limit m power_limit = limit

  abbrev pub pd_of : Controller → Mppt F → Pd F
  pd_of vin_limit m = m.vin_controller
  pd_of vout_limit m = m.vout_controller
  pd_of iin_limit m = m.iin_controller
  pd_of iout_limit m = m.iout_current_controller
  pd_of power_limit m = m.power_controller

  abbrev pub set_pd : Controller → Pd F → Mppt F → Mppt F
  set_pd vin_limit p m = record m { vin_controller = p }
  set_pd vout_limit p m = record m { vout_controller = p }
  set_pd iin_limit p m = record m { iin_controller = p }
  set_pd iout_limit p m = record m { iout_current_controller = p }
  set_pd power_limit p m = record m { power_controller = p }

  -- One pass of the loop. `m0` is the state that the array was built from.
  unfoldable pub run_controller :
      (now : ℕ) (m0 : Mppt F) (limit : F) → Controller → Mppt F × Limiting F → Mppt F × Limiting F
  run_controller now m0 limit c s =
      let m = s.0 in
      let (pd, value) = Pd.update (actual m0 c) (target limit m0 c) (pd_of c m) in
      let m1 = set_pd c pd m in
      let broken =
        not (is_finite value)
        && not (disabled m1.converter)
        && lt (dec 1 2) (get_duty_cycle m1.converter) in
      let m2 = if broken then shutdown_dcdc now 5 m1 else m1 in
      let v : F = if broken then neg f1 else value in
      (m2, if lt v s.1.value then record { value = v; by = some c } else s.1)

  unfoldable pub run_controllers :
      (now : ℕ) (m0 : Mppt F) (limit : F)
      → List Controller
      → Mppt F × Limiting F
      → Mppt F × Limiting F
  run_controllers now m0 limit [] s = s
  run_controllers now m0 limit (c ∷ cs) s =
      run_controllers now m0 limit cs (run_controller now m0 limit c s)

  -- A negative value limits; the first one that is not hands over to the tracking.
  unfoldable pub limit_mode : Limiting F → Mppt F → Mppt F × Decision F
  limit_mode l m =
      if lt l.value f0
      then (
        record m {
          limiting = true;
          lim_idx = index_by l.by;
          lim_idx_sampled = Sampled.add (index_by l.by) m.lim_idx_sampled;
        },
        record { mode = mode_by l.by; value = l.value },
      )
      else if m.limiting
      then (record m { limiting = false; lim_idx = 15 }, record { mode = mppt; value = l.value })
      else (m, record { mode = no_mode; value = f0 })

  -- The bounce at the ends of the duty range.
  unfoldable pub bounce : Mppt F → Decision F → Decision F
  bounce m d =
      if m.converter.pwm_ctrl == m.converter.config.pwm_ctrl_max
      then record { mode = cv; value = neg f1 }
      else if (m.converter.pwm_ctrl == m.converter.config.pwm_ctrl_min) && not m.sweeping
      then record { mode = cv; value = f1 }
      else d

  abbrev pub wake : Mppt F → Mppt F
  wake m =
      if disabled m.converter then record m { converter = pwm_perturb (pos 1) m.converter } else m

  abbrev sweep_value : Limiting F → Mppt F → F
  sweep_value l m =
      std_min (mul l.value (div (mul m.sweep_speed (dec 25 2)) (dec 5 0))) m.sweep_speed

  -- The scan goes on, or ends at a limit.
  unfoldable pub advance : (now : ℕ) → Limiting F → Mppt F → Decision F → Mppt F × Decision F
  advance now l m d =
      if is_idle d.mode
      then (
        capture_max (power_smooth m) m.sampler.vin.med3.last m,
        record { mode = sweep; value = sweep_value l m },
      )
      else (stop_sweep now m, d)

  -- One step of a scan. `none` is the return inside a backoff.
  unfoldable pub sweep_step :
      (now : ℕ) → Limiting F → Mppt F → Decision F → Option (Mppt F × Decision F)
  sweep_step now l m d =
      if disabled m.converter && in_backoff now m then none else some (advance now l (wake m) d)

  abbrev fades : Mppt F → ControlMode → Bool
  fades m no_mode = true
  fades m mppt = true
  fades m cv = ltb m.target_duty_cycle m.converter.pwm_ctrl
  fades m _ = false

  abbrev pub fade_to : Mppt F → F
  fade_to m =
      let counts = m.converter.config.driver_pwm_max in
      of_int (
        constrain (sub_ℕ m.target_duty_cycle m.converter.pwm_ctrl) (negsuc (counts / 64))
          (pos (counts / 128 + 1)))

  -- The ramp to the best point of a scan; a limit or the arrival ends it.
  unfoldable pub ramp_step : Mppt F → Decision F → Mppt F × Decision F
  ramp_step m d =
      if fades m d.mode
      then (
        (if le (fabs (fade_to m)) f1 then record m { target_duty_cycle = 0 } else m),
        record { mode = sweep; value = fade_to m },
      )
      else (record m { target_duty_cycle = 0 }, d)

  unfoldable pub follow_target :
      (now : ℕ) → Limiting F → Mppt F → Decision F → Option (Mppt F × Decision F)
  follow_target now l m d =
      if m.sweeping && not (is_calibrating m.sampler)
      then sweep_step now l m d
      else some (if m.target_duty_cycle == 0 then (m, d) else ramp_step m d)

  -- The switch and the rectifier want more current to go on than to stay on.
  abbrev pub current_threshold : Mppt F → F
  current_threshold m =
      if m.limits.reverse_current_paranoia
      then (if m.bflow.on then dec 5 2 else dec 2 1)
      else (if m.bflow.on then f0 else dec 1 1)

  abbrev pub above_threshold : Mppt F → Bool
  above_threshold m =
      let i = avg (physical_i m) in
      lt (current_threshold m) i || lt (dec 5 2) i && lt (dec 3 1) (get_duty_cycle m.converter)

  -- Without a limit the tracker decides; otherwise it is told the direction.
  unfoldable pub track : (now : ℕ) (power : F) → Mppt F → Decision F → Option (Mppt F × Decision F)
  track now power m d =
      if is_idle d.mode
      then (Tracking.update (now / 1000) power m.converter.pwm_ctrl (avg m.sampler.vin) m.tracker
          >>= (λ r.
              some (
                record m { tracker = r.0 },
                record { mode = mppt; value = mul r.1 m.speed_scale },
              )))
      else (some (
        record m { tracker = Tracking.reset_direction (now / 1000) (lt f0 d.value) m.tracker },
        d,
      ))

  -- `fp`, the step of the converter in counts.
  abbrev pub perturbation : (now : ℕ) → F → Mppt F → F
  perturbation now value m =
      let top = of_ℕ m.converter.config.pwm_ctrl_max in
      let dt = of_ℕ (elapsed now m.last_us) in
      let scaled = mul (mul (mul value (div f1 (dec 2000 0))) top) dt in
      fconstrain (mul (mul (mul scaled (dec 1 6)) (dec 25 0)) (dec 2 0))
        (neg (of_ℕ m.converter.pwm_ctrl)) (div (mul (dec 16 0) top) (dec 2000 0))

  -- The first call only notes the time. `none` is the exception of `pwmPerturbFractional`.
  unfoldable pub apply_value : (now : ℕ) → F → Mppt F → Option (Mppt F)
  apply_value now value m =
      let perturbed : Option (Mppt F) =
        if m.last_us == 0
        then some m
        else (pwm_perturb_fractional (perturbation now value m) m.converter
            >>= (λ c. some (record m { converter = c }))) in
      perturbed >>= (λ m1. some (record m1 { last_us = now }))

  abbrev pub switch_rect : (above : Bool) → Mppt F → Mppt F
  switch_rect above m = record m {
    bflow = Backflow.enable (above || m.converter.config.is_boost) m.bflow;
    converter = enable_sync_rect above false m.converter;
  }

  -- From the control values to the converter. The control value is capped by the limiting one.
  unfoldable pub act : (now : ℕ) (power : F) → Limiting F → Mppt F → Decision F → Option (Mppt F)
  act now power l m d =
      let above = above_threshold m in
      track now power m d >>= (λ r.
        let value = std_min r.1.value l.value in
        apply_value now value (record (r.0) { mode = r.1.mode; cntrl_value = value })
        >>= (λ m1. some (switch_rect above m1)))

  abbrev pub continue_with :
      (now : ℕ) (power : F) → Limiting F → Mppt F → Option (Mppt F × Decision F) → Option (Mppt F)
  continue_with now power l m none = some m
  continue_with now power l m (some r) = act now power l r.0 r.1

  -- The loop without its early returns.
  unfoldable pub regulate : (now : ℕ) (limit : F) → Mppt F → Option (Mppt F)
  regulate now limit m =
      let (m1, l) =
        run_controllers now m limit controllers (m, record { value = inf; by = none }) in
      let (m2, d) = limit_mode l m1 in
      continue_with now (power_smooth m) l m2 (follow_target now l m2 (bounce m2 d))

  -- Half an hour after the last calibration, if the battery is not full and nothing waits.
  abbrev pub sweep_due : ℕ → Mppt F → Bool
  sweep_due now m =
      not m.sweeping
      && not (m.charger.term_cond.terminated || is_cv m.mode)
      && not (in_backoff now m)
      && ltb 1_800_000_000 (elapsed now m.sampler.time_last_calibration)

  -- `update`, unless `targetPwmCnt` is set. `none` is an exception or a failed assertion.
  unfoldable pub update_mppt : ℕ → Mppt F → Option (Mppt F)
  update_mppt now m =
      if disabled m.converter && not (start_condition now m)
      then some (record m { bflow = Backflow.enable false m.bflow; mode = no_mode })
      else (derated_power m
          >>= (λ limit. if sweep_due now m then some (start_sweep m) else regulate now limit m))
