-- ===== src/RealTime/Hazards.antt =====
-- An iteration of `loopRTNewData` of src/main.cpp that sees an over-voltage of the input or too high a
-- temperature.
use fugu_mppt_firmware.Prelude.{
  ℕ, ◌+◌, ◌≡◌, ◌⊎◌, inl, inr, refl, Bool, true, false, ◌&&◌, ◌||◌, not, arith, some, if◌then◌else◌,
  ◌∙◌, ap,
}
use fugu_mppt_firmware.Float.{Float}
use fugu_mppt_firmware.Converter.{disabled}
use fugu_mppt_firmware.Converter.Rect.{update_sync_rect_max_duty}
use fugu_mppt_firmware.Charger.Params.{have_vbat_max}
use fugu_mppt_firmware.Charger.Detect.{detect_max_battery_voltage}
use fugu_mppt_firmware.Sampler.Calibrating.{is_calibrating}
use fugu_mppt_firmware.Mppt.{Mppt, avg}
use fugu_mppt_firmware.Mppt.Backoff.{
  start_condition, shutdown_dcdc, power_off, arm_backoff, board_power_supply_under_voltage,
}
use fugu_mppt_firmware.Mppt.Protect.{
  Checked, tripped, passed, ◌>>=◌, trip_if, vin_over_voltage, check_vout, check_reverse, check_buck,
  check_switch, check_ratio, checks, protect, finish, over_voltage_threshold, voltage_ratio_fails,
}
use fugu_mppt_firmware.Mppt.Slow.{
  protect_lf, check_supply, check_battery, check_temperature, outcome,
}
use fugu_mppt_firmware.Mppt.Guarded.{IsOff, Fits, backoff-blocks}
use fugu_mppt_firmware.RealTime.{
  RealTime, active, guard, control, fade, stop_and_backoff, dispatch, note_sample, has_new_sample,
  loop_rt_new_data,
}
use fugu_mppt_firmware.RealTime.Invariant.{failed_guard_stops}

second_branch :
    {A : Type 0} (a b : Bool) (x y z : A)
    → a ≡ false
    → b ≡ true
    → (if a then x else if b then y else z) ≡ y
second_branch true b x y z p q = absurd (cc)
second_branch false true x y z p q = refl
second_branch false false x y z p q = absurd (cc)

module _ {F : Type 0} ⦃fl : Float F⦄ where
  open fl use {lt, is_nan}

  abbrev pub over_temperature : Mppt F → Bool
  over_temperature m = lt m.limits.temp_max m.ntc || lt m.limits.temp_max m.uc_temp

  -- A check that passes leaves the temperatures and the limits as they were.
  abbrev Kept : Mppt F → Checked F → Type 0
  Kept m (tripped n) = Unit
  Kept m (passed n) = (n.ntc ≡ m.ntc) × (n.uc_temp ≡ m.uc_temp) × (n.limits ≡ m.limits)

  record Keeps (m : Mppt F) (c : Checked F) : Type 0 where
    holds : Kept m c

  bind-Keeps :
      (m : Mppt F) (c : Checked F) (f : Mppt F → Checked F)
      → Keeps m c
      → ((n : Mppt F) → Keeps n (f n))
      → Keeps m (c >>= f)
  bind-Keeps m (tripped n) f k next = record { holds = _ }
  bind-Keeps m (passed n) f k next = from (f n) (next n).holds
    where
      from : (d : Checked F) → Kept n d → Keeps m d
      from (tripped x) q = record { holds = _ }
      from (passed x) q = record { holds = (q.0 ∙ k.holds.0, q.1 ∙ k.holds.1, q.2 ∙ k.holds.2) }

  if-Keeps :
      (m : Mppt F) (test : Bool) (c d : Checked F)
      → Keeps m c
      → Keeps m d
      → Keeps m (if test then c else d)
  if-Keeps m true c d p q = p
  if-Keeps m false c d p q = q

  passed-Keeps :
      (m n : Mppt F)
      → n.ntc ≡ m.ntc
      → n.uc_temp ≡ m.uc_temp
      → n.limits ≡ m.limits
      → Keeps m (passed n)
  passed-Keeps m n a b c = record { holds = (a, b, c) }

  tripped-Keeps : (m n : Mppt F) → Keeps m (tripped n)
  tripped-Keeps m n = record { holds = _ }

  trip_if-Keeps : (now sec : ℕ) (test : Bool) (m : Mppt F) → Keeps m (trip_if now sec test m)
  trip_if-Keeps now sec true m = record { holds = _ }
  trip_if-Keeps now sec false m = record { holds = (refl, refl, refl) }

  shutdown-keeps :
      (now sec : ℕ) (m : Mppt F)
      → let n = shutdown_dcdc now sec m in
        (n.ntc ≡ m.ntc) × (n.uc_temp ≡ m.uc_temp) × (n.limits ≡ m.limits)
  unfolding shutdown_dcdc power_off arm_backoff
  shutdown-keeps now sec m = ground arith

  check_vout-Keeps : (now : ℕ) (m : Mppt F) → Keeps m (check_vout now m)
  unfolding check_vout
  check_vout-Keeps now m =
      if-Keeps m (lt (over_voltage_threshold m) m.sampler.vout.last) _ _ (tripped-Keeps m _)
        (passed-Keeps m m refl refl refl)

  check_reverse-Keeps : (now : ℕ) (m : Mppt F) → Keeps m (check_reverse now m)
  unfolding check_reverse
  check_reverse-Keeps now m =
      let (a, b, c) = shutdown-keeps now 5 m in
      if-Keeps m _ _ _ (if-Keeps m _ _ _ (passed-Keeps m _ a b c) (passed-Keeps m _ refl refl refl))
        (passed-Keeps m m refl refl refl)

  check_buck-Keeps : (now : ℕ) (m : Mppt F) → Keeps m (check_buck now m)
  unfolding check_buck
  check_buck-Keeps now m = if-Keeps m _ _ _ (passed-Keeps m m refl refl refl) (
      bind-Keeps m _ _ (bind-Keeps m _ _ (trip_if-Keeps now 5 _ m) (λ n. trip_if-Keeps now 5 _ n))
        (λ n. passed-Keeps n _ (ground arith) (ground arith) (ground arith)))

  check_switch-Keeps : (now : ℕ) (m : Mppt F) → Keeps m (check_switch now m)
  unfolding check_switch
  check_switch-Keeps now m =
      if-Keeps m _ _ _ (bind-Keeps m _ _ (trip_if-Keeps now 5 _ m) (λ n. trip_if-Keeps now 5 _ n))
        (passed-Keeps m m refl refl refl)

  check_ratio-Keeps : (now : ℕ) (m : Mppt F) → Keeps m (check_ratio now m)
  unfolding check_ratio
  check_ratio-Keeps now m =
      let il : F = if m.converter.config.is_boost then avg m.sampler.iin else avg m.sampler.iout in
      let r = update_sync_rect_max_duty (avg m.sampler.vin) (avg m.sampler.vout) il m.converter in
      let limited : Mppt F = record m { converter = r.0 } in
      bind-Keeps m (passed limited) (λ n. trip_if now 5 (voltage_ratio_fails r.1 n) n)
        (passed-Keeps m limited refl refl refl) (λ n. trip_if-Keeps now 5 _ n)

  checks-Keeps : (now : ℕ) (m : Mppt F) → Keeps m (checks now m)
  unfolding checks
  checks-Keeps now m =
      bind-Keeps m _ _
        (bind-Keeps m _ _
          (bind-Keeps m _ _
            (bind-Keeps m _ _
              (bind-Keeps m _ _
                (bind-Keeps m _ _
                  (bind-Keeps m _ _
                    (bind-Keeps m _ _
                      (bind-Keeps m _ _
                        (bind-Keeps m _ _ (trip_if-Keeps now 5 _ m) (check_vout-Keeps now))
                        (λ n. trip_if-Keeps now 5 _ n))
                      (λ n. trip_if-Keeps now 30 _ n))
                    (check_reverse-Keeps now))
                  (λ n. trip_if-Keeps now 5 _ n))
                (check_buck-Keeps now))
              (λ n. trip_if-Keeps now 30 _ n))
            (check_switch-Keeps now))
          (λ n. trip_if-Keeps now 5 _ n))
        (check_ratio-Keeps now)

  -- The first check is that of the input's voltage.
  vin-trips : (now : ℕ) (m : Mppt F) → vin_over_voltage m ≡ true → (protect now m).1 ≡ false
  unfolding protect checks
  vin-trips now m h = rw h refl

  check_supply-Keeps :
      (now : ℕ) (ignore_uv : Bool) (m : Mppt F) → Keeps m (check_supply now ignore_uv m)
  check_supply-Keeps now ignore_uv m =
      if-Keeps m (board_power_supply_under_voltage false m && not ignore_uv) _ _ (tripped-Keeps m _)
        (passed-Keeps m m refl refl refl)

  check_battery-Keeps : (m : Mppt F) → Keeps m (check_battery m)
  check_battery-Keeps m =
      if-Keeps m (have_vbat_max m.charger.params) _ _ (passed-Keeps m m refl refl refl) (
        if-Keeps m (is_nan (detect_max_battery_voltage m.sampler.vout.calibration_avg)) _ _
          (tripped-Keeps m _) (passed-Keeps m _ refl refl refl))

  -- The last check of the slow protection is that of the temperatures.
  heat-trips :
      (now : ℕ) (ignore_uv : Bool) (m : Mppt F)
      → over_temperature m ≡ true
      → (protect_lf now ignore_uv m).1 ≡ false
  unfolding protect_lf
  heat-trips now ignore_uv m h =
      from (check_supply now ignore_uv m >>= check_battery)
        (bind-Keeps m _ _ (check_supply-Keeps now ignore_uv m) check_battery-Keeps).holds
    where
      from : (c : Checked F) → Kept m c → (outcome (c >>= check_temperature)).1 ≡ false
      from (tripped n) k = refl
      from (passed n) k = let hot : over_temperature n ≡ true = rw (k.0, k.1, k.2) h in rw hot refl

  heat-survives :
      (now : ℕ) (m : Mppt F)
      → over_temperature m ≡ true
      → ((protect now m).1 ≡ false) ⊎ (over_temperature (protect now m).0 ≡ true)
  unfolding protect
  heat-survives now m h = from (checks now m) (checks-Keeps now m).holds
    where
      from :
          (c : Checked F)
          → Kept m c
          → ((finish now c).1 ≡ false) ⊎ (over_temperature (finish now c).0 ≡ true)
      from (tripped n) k = inl refl
      from (passed n) k = inr (rw (k.0, k.1, k.2) h)

  -- What must stop a converter that is on.
  abbrev pub IsHazard : Mppt F → Type 0
  IsHazard m = (vin_over_voltage m ≡ true) ⊎ (over_temperature m ≡ true)

  hazard-guard :
      (now : ℕ) (manual : Bool) (m : Mppt F)
      → disabled m.converter ≡ false
      → IsHazard m
      → (guard now manual m).1 ≡ false
  hazard-guard now manual m on (inl v) = rw (on, vin-trips now m v) refl
  hazard-guard now manual m on (inr h) = elim (heat-survives now m h) [
    | inl p ↦ rw (on, p) refl
    | inr hot ↦ rw on (ground (arith, heat-trips now manual (protect now m).0 hot))
  ]

  -- The iteration in which a check fails, with the fade-in behind the control.
  failed_guard-iteration :
      (now timer : ℕ) (r : RealTime F)
      → Fits now
      → is_calibrating r.mppt.sampler ≡ false
      → disabled r.mppt.converter ≡ false
      → (guard now r.manual_pwm r.mppt).1 ≡ false
      → (q : RealTime F) × (loop_rt_new_data now timer r ≡ some q)
        × IsOff now q.mppt
        × (q.delay_start_until ≡ now + 4_000_000)
  unfolding loop_rt_new_data
  failed_guard-iteration now timer r w c on f =
      let new_sample = has_new_sample r in
      let noted = note_sample now new_sample r in
      let (stops, off, delay) = failed_guard_stops now new_sample noted w f in
      let q = stop_and_backoff now 4 (record noted { mppt = (guard now r.manual_pwm r.mppt).0 }) in
      let runs : (active r.mppt || r.manual_pwm) ≡ true = ground arith in
      let faded : fade q ≡ q = rw off.converter_off (ground arith) in
      let controlled : dispatch now timer new_sample noted ≡ some q =
        second_branch (is_calibrating r.mppt.sampler) (active r.mppt || r.manual_pwm) _
          (control now new_sample noted) _ c runs
        ∙ stops in
      (q, rw controlled (ap some faded), off, delay)

  -- An iteration on a converter that is on, while the sampler does not calibrate and 30 seconds or more
  -- before the clock's wrap: if the input voltage is above its limit, or one of the temperatures is, the
  -- iteration throws no exception, and behind the whole of it, the fade-in included and with a new sample or
  -- without, in manual mode too, the converter and the switch are off, no sweep runs, a backoff runs,
  -- nothing may start the converter, and the next start is delayed by four seconds.
  pub hazard_stops :
      (now timer : ℕ) (r : RealTime F)
      → Fits now
      → is_calibrating r.mppt.sampler ≡ false
      → disabled r.mppt.converter ≡ false
      → IsHazard r.mppt
      → (q : RealTime F) × (loop_rt_new_data now timer r ≡ some q)
        × IsOff now q.mppt
        × (start_condition now q.mppt ≡ false)
        × (q.delay_start_until ≡ now + 4_000_000)
  hazard_stops now timer r w c on h =
      let (q, e, off, delay) =
        failed_guard-iteration now timer r w c on (hazard-guard now r.manual_pwm r.mppt on h) in
      (q, e, off, backoff-blocks now q.mppt off.waiting, delay)
