-- ===== src/RealTime/Invariant.antt =====
-- Every iteration of the loop of src/main.cpp keeps the converter of src/buck.h in its bounds.
use fugu_mppt_firmware.Prelude.{
  ℕ, ◌+◌, ◌≡◌, inl, inr, refl, Bool, true, false, not, arith, ◌==◌, if◌then◌else◌, some, Bool-cases,
  List, [], ◌∷◌, ◌&&◌,
}
use fugu_mppt_firmware.Prelude.Int.{ℤ, pos, sub_ℕ, constrain}
use fugu_mppt_firmware.Float.{Float}
use fugu_mppt_firmware.Converter.{Converter, disabled}
use fugu_mppt_firmware.Converter.Bounds.{IsSafe}
use fugu_mppt_firmware.Converter.Safety.{
  disable-IsSafe, enable_sync_rect-IsSafe, pwm_perturb-IsSafe, pwm_perturb_fractional-IsSafe,
}
use fugu_mppt_firmware.Converter.Calls.{calls-IsSafe}
use fugu_mppt_firmware.Converter.Perturb.{pwm_perturb, pwm_perturb_fractional, is_zero}
use fugu_mppt_firmware.Signal.Pd
use fugu_mppt_firmware.Charger.Pinning.{vout_max}
use fugu_mppt_firmware.Mppt.{Mppt, cv}
use fugu_mppt_firmware.Mppt.Backoff.{shutdown_dcdc, in_backoff, disable_converter}
use fugu_mppt_firmware.Mppt.Protect.{protect}
use fugu_mppt_firmware.Sampler.Calibrating.{is_calibrating}
use fugu_mppt_firmware.Mppt.Guarded.{IsOff, Fits, shutdown_dcdc-IsOff}
use fugu_mppt_firmware.Mppt.Safety.{
  ConverterSafe, shutdown_dcdc-safe, protect-safe, protect_lf-safe,
}
use fugu_mppt_firmware.Mppt.Steering.{
  Always, some-Always, if-Always, bind-Always, update_mppt-Always, if-safe, start_sweep-safe,
}
use fugu_mppt_firmware.Mppt.Control.{update_mppt}
use fugu_mppt_firmware.Mppt.Manual.{
  update_manual, update_cv, update, ramp_down, prepare_start, ramp_towards, cv_perturb, ramp_counts,
  cv_perturbation, noted,
}
use fugu_mppt_firmware.RealTime.{
  RealTime, stop_and_backoff, guard, run_update, control, start_scan, idle, fade, loop_rt_new_data,
  Input, receive, iterate, dispatch, note_sample, has_new_sample,
}

module _ {F : Type 0} ⦃fl : Float F⦄ where
  open fl use {is_finite}

  ramp_down_lem : (m : Mppt F) → IsSafe m.converter → IsSafe (ramp_down m).converter
  ramp_down_lem m s = ground (
    arith,
    disable-IsSafe m.converter s,
    pwm_perturb-IsSafe (sub_ℕ 0 (ramp_counts m)) m.converter s,
  )

  prepare_start_lem : (m : Mppt F) → IsSafe m.converter → IsSafe (prepare_start m).converter
  prepare_start_lem m s = ground (arith, enable_sync_rect-IsSafe true false m.converter s)

  moved-IsSafe :
      (z : ℤ) (c : Converter F) → IsSafe c → IsSafe (if is_zero z then c else pwm_perturb z c)
  moved-IsSafe z c s = elim (Bool-cases (is_zero z)) [
    | inl e ↦ rw e s
    | inr e ↦ rw e (pwm_perturb-IsSafe z c s)
  ]

  ramp_towards-safe : (m : Mppt F) → ConverterSafe m → ConverterSafe (ramp_towards m)
  ramp_towards-safe m s =
      let z =
        constrain (sub_ℕ m.manual_target m.converter.pwm_ctrl) (sub_ℕ 0 (ramp_counts m))
          (pos (ramp_counts m)) in
      if-safe (is_zero z) m (record m { converter = pwm_perturb z m.converter }) s
        (record { safe = pwm_perturb-IsSafe z m.converter s.safe })

  update_manual-safe :
      (now : ℕ) (m : Mppt F) → ConverterSafe m → ConverterSafe (update_manual now m)
  unfolding update_manual
  update_manual-safe now m s =
      let n = noted now m in
      if-safe (in_backoff now m) (if disabled m.converter then n else disable_converter n)
        (if m.manual_target == 0 then ramp_down n else ramp_towards (prepare_start n))
        (if-safe (disabled m.converter) n (disable_converter n) (record { safe = s.safe })
          (record { safe = disable-IsSafe m.converter s.safe }))
        (if-safe (m.manual_target == 0) (ramp_down n) (ramp_towards (prepare_start n))
          (record { safe = ramp_down_lem n s.safe })
          (ramp_towards-safe (prepare_start n) (record { safe = prepare_start_lem n s.safe })))

  update_cv-Always :
      (now : ℕ) (m : Mppt F) → ConverterSafe m → Always ConverterSafe (update_cv now m)
  unfolding update_cv
  update_cv-Always now m0 s =
      let r = Pd.update m0.sampler.vout.last (vout_max m0.charger) m0.vout_controller in
      let m : Mppt F = record m0 { vout_controller = r.0; mode = cv; cntrl_value = r.1 } in
      if-Always ConverterSafe (not (is_finite r.1))
        (some (if disabled m.converter then m else shutdown_dcdc now 5 m)) _
        (some-Always ConverterSafe _ (
          if-safe (disabled m.converter) m (shutdown_dcdc now 5 m) (record { safe = s.safe })
            (shutdown_dcdc-safe now 5 m (record { safe = s.safe }))))
        (bind-Always ConverterSafe ConverterSafe (cv_perturb now r.1 m) _
          (if-Always ConverterSafe (m.last_us == 0) (some m) _
            (some-Always ConverterSafe m (record { safe = s.safe }))
            (bind-Always ConverterSafe IsSafe
              (pwm_perturb_fractional (cv_perturbation now r.1 m) m.converter) _
              (record { holds = λ c e. pwm_perturb_fractional-IsSafe _ m.converter c s.safe e })
              (λ c q.
                some-Always ConverterSafe (record m { converter = c }) (record { safe = q }))))
          (λ n q.
            some-Always ConverterSafe _
              (record { safe = enable_sync_rect-IsSafe _ false n.converter q.safe })))

  update-Always : (now : ℕ) (m : Mppt F) → ConverterSafe m → Always ConverterSafe (update now m)
  unfolding update
  update-Always now m s =
      if-Always ConverterSafe (m.target_pwm_cnt == 0) (update_mppt now m) (update_cv now m)
        (update_mppt-Always now m s) (update_cv-Always now m s)

  run_update-Always :
      (now : ℕ) (manual : Bool) (m : Mppt F)
      → ConverterSafe m
      → Always ConverterSafe (run_update now manual m)
  run_update-Always now manual m s =
      if-Always ConverterSafe manual (some (update_manual now m)) (update now m)
        (some-Always ConverterSafe (update_manual now m) (update_manual-safe now m s))
        (update-Always now m s)

  -- The invariant of the loop.
  pub record LoopSafe (r : RealTime F) : Type 0 where
    pub converter_safe : ConverterSafe r.mppt

  pub if-LoopSafe :
      (test : Bool) (r q : RealTime F) → LoopSafe r → LoopSafe q → LoopSafe (if test then r else q)
  if-LoopSafe true r q s t = s
  if-LoopSafe false r q s t = t

  guard-safe :
      (now : ℕ) (manual : Bool) (m : Mppt F)
      → ConverterSafe m
      → ConverterSafe (guard now manual m).0
  guard-safe now manual m s = elim (Bool-cases (disabled m.converter)) [
    | inl e ↦ rw e s
    | inr e ↦ rw e (protect_lf-safe now manual (protect now m).0 (protect-safe now m s))
  ]

  pub stop_and_backoff-LoopSafe :
      (now sec : ℕ) (r : RealTime F) → ConverterSafe r.mppt → LoopSafe (stop_and_backoff now sec r)
  unfolding stop_and_backoff
  stop_and_backoff-LoopSafe now sec r s = record {
    converter_safe = shutdown_dcdc-safe now 5 r.mppt s;
  }

  control-Always :
      (now : ℕ) (new_sample : Bool) (r : RealTime F)
      → LoopSafe r
      → Always LoopSafe (control now new_sample r)
  control-Always now new_sample r s =
      let g = guard now r.manual_pwm r.mppt in
      let guarded : RealTime F = record r { mppt = g.0 } in
      let safe1 = guard-safe now r.manual_pwm r.mppt s.converter_safe in
      if-Always LoopSafe (not g.1) (some (stop_and_backoff now 4 guarded)) _
        (some-Always LoopSafe (stop_and_backoff now 4 guarded)
          (stop_and_backoff-LoopSafe now 4 guarded safe1))
        (if-Always LoopSafe (not new_sample) (some guarded) _
          (some-Always LoopSafe guarded (record { converter_safe = safe1 }))
          (bind-Always LoopSafe ConverterSafe (run_update now r.manual_pwm g.0) _
            (run_update-Always now r.manual_pwm g.0 safe1)
            (λ m1 q. some-Always LoopSafe _ (record { converter_safe = q }))))

  start_scan-LoopSafe :
      (now timer : ℕ) (r : RealTime F) → LoopSafe r → LoopSafe (start_scan now timer r)
  unfolding start_scan
  start_scan-LoopSafe now timer r s =
      if-LoopSafe _ _ _ (record { converter_safe = start_sweep-safe r.mppt s.converter_safe })
        (record { converter_safe = s.converter_safe })

  fade-LoopSafe : (r : RealTime F) → LoopSafe r → LoopSafe (fade r)
  fade-LoopSafe r s =
      if-LoopSafe (r.manual_pwm && not (disabled r.mppt.converter)) _ r
        (record {
          converter_safe = record {
            safe = pwm_perturb-IsSafe (pos 0) r.mppt.converter s.converter_safe.safe;
          };
        })
        s

  dispatch-Always :
      (now timer : ℕ) (new_sample : Bool) (r : RealTime F)
      → LoopSafe r
      → Always LoopSafe (dispatch now timer new_sample r)
  dispatch-Always now timer new_sample r s =
      if-Always LoopSafe (is_calibrating r.mppt.sampler) _ _
        (some-Always LoopSafe _
          (record { converter_safe = shutdown_dcdc-safe now 0 r.mppt s.converter_safe }))
        (if-Always LoopSafe _ (control now new_sample r) _ (control-Always now new_sample r s) (
          some-Always LoopSafe (idle now timer r)
            (if-LoopSafe _ (start_scan now timer r) r (start_scan-LoopSafe now timer r s) s)))

  pub loop_rt_new_data-Always :
      (now timer : ℕ) (r : RealTime F) → LoopSafe r → Always LoopSafe (loop_rt_new_data now timer r)
  unfolding loop_rt_new_data
  loop_rt_new_data-Always now timer r s =
      bind-Always LoopSafe LoopSafe _ (λ r1. some (fade r1))
        (dispatch-Always now timer (has_new_sample r) (note_sample now (has_new_sample r) r)
          (record { converter_safe = s.converter_safe }))
        (λ r1 q. some-Always LoopSafe (fade r1) (fade-LoopSafe r1 q))

  pub receive-LoopSafe : (x : Input F) (r : RealTime F) → LoopSafe r → LoopSafe (receive x r)
  unfolding receive
  receive-LoopSafe x r s = record {
    converter_safe = record {
      safe = calls-IsSafe x.console r.mppt.converter s.converter_safe.safe;
    };
  }

  iterate-Always :
      (xs : List (Input F)) (r : RealTime F) → LoopSafe r → Always LoopSafe (iterate xs r)
  unfolding iterate
  iterate-Always [] r s = some-Always LoopSafe r s
  iterate-Always (x ∷ xs) r s =
      bind-Always LoopSafe LoopSafe (loop_rt_new_data x.now x.timer (receive x r)) (iterate xs)
        (loop_rt_new_data-Always x.now x.timer (receive x r) (receive-LoopSafe x r s))
        (iterate-Always xs)

  -- Whatever the sensors, the charger and the user bring: if the converter is in its bounds at the
  -- start, it is in them after any number of iterations of the real-time loop that throw no exception
  -- and fail no assertion. With a bootstrap refresh the two on-times then share the PWM period.
  pub iterate-IsSafe :
      (xs : List (Input F)) (r r' : RealTime F)
      → IsSafe r.mppt.converter
      → iterate xs r ≡ some r'
      → IsSafe r'.mppt.converter
  iterate-IsSafe xs r r' s e =
      ((iterate-Always xs r (record { converter_safe = record { safe = s } })).holds r'
        e).converter_safe.safe

  -- The control in which a check fails.
  pub failed_guard_stops :
      (now : ℕ) (new_sample : Bool) (r : RealTime F)
      → Fits now
      → (guard now r.manual_pwm r.mppt).1 ≡ false
      → let s = stop_and_backoff now 4 (record r { mppt = (guard now r.manual_pwm r.mppt).0 }) in
        (control now new_sample r ≡ some s)
        × IsOff now s.mppt
        × (s.delay_start_until ≡ now + 4_000_000)
  unfolding stop_and_backoff
  failed_guard_stops now new_sample r w f =
      (rw f refl, shutdown_dcdc-IsOff now 5 _ (omega arith) (omega arith), omega arith)
