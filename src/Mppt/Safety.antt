-- ===== src/Mppt/Safety.antt =====
-- The controller of src/mppt.h and src/mppt.cpp keeps the converter of src/buck.h in its bounds.
use fugu_mppt_firmware.Prelude.{ℕ, ◌≡◌, sym, subst, Bool, true, false, arith, if◌then◌else◌}
use fugu_mppt_firmware.Float.{Float}
use fugu_mppt_firmware.Converter.{get_duty_cycle}
use fugu_mppt_firmware.Converter.Bounds.{IsSafe}
use fugu_mppt_firmware.Converter.Safety.{
  disable-IsSafe, sync_rect_min_duty-IsSafe, update_sync_rect_max_duty-IsSafe,
}
use fugu_mppt_firmware.Converter.Perturb.{disable}
use fugu_mppt_firmware.Mppt.{Mppt, avg, physical_i}
use fugu_mppt_firmware.Mppt.Backoff.{shutdown_dcdc, power_off, arm_backoff}
use fugu_mppt_firmware.Mppt.Protect.{
  Checked, tripped, passed, ◌>>=◌, trip_if, check_vout, check_reverse, check_buck, check_switch,
  check_ratio, checks, protect, finish, redetect, guard_low_current, vin_over_voltage,
  iin_over_current, iout_over_current, reverse_average, short_circuit, diode_over_current,
  switch_open, vout_above_vin_avg, vout_above_twice_vin,
}
use fugu_mppt_firmware.Mppt.Slow.{
  protect_lf, check_supply, check_battery, check_temperature, outcome,
}

module _ {F : Type 0} where
  -- The invariant of the converter, for the controller that holds it.
  pub record ConverterSafe (m : Mppt F) : Type 0 where
    pub safe : IsSafe m.converter

  shutdown_dcdc-converter :
      (now sec : ℕ) (m : Mppt F) → (shutdown_dcdc now sec m).converter ≡ disable m.converter
  unfolding shutdown_dcdc power_off arm_backoff
  shutdown_dcdc-converter now sec m = ground arith

  pub shutdown_dcdc-safe :
      (now sec : ℕ) (m : Mppt F) → ConverterSafe m → ConverterSafe (shutdown_dcdc now sec m)
  shutdown_dcdc-safe now sec m s = record {
    safe =
        subst IsSafe (sym (shutdown_dcdc-converter now sec m)) (disable-IsSafe m.converter s.safe);
  }

module _ {F : Type 0} ⦃fl : Float F⦄ where
  open fl use {lt, dec}

  abbrev Result : Checked F → Type 0
  Result (tripped m) = ConverterSafe m
  Result (passed m) = ConverterSafe m

  -- Both outcomes of a check leave the converter safe.
  record CheckedSafe (c : Checked F) : Type 0 where
    holds : Result c

  bind-CheckedSafe :
      (c : Checked F) (f : Mppt F → Checked F)
      → CheckedSafe c
      → ((m : Mppt F) → ConverterSafe m → CheckedSafe (f m))
      → CheckedSafe (c >>= f)
  bind-CheckedSafe (tripped m) f s k = record { holds = s.holds }
  bind-CheckedSafe (passed m) f s k = k m s.holds

  if-CheckedSafe :
      (test : Bool) (c d : Checked F)
      → CheckedSafe c
      → CheckedSafe d
      → CheckedSafe (if test then c else d)
  if-CheckedSafe true c d p q = p
  if-CheckedSafe false c d p q = q

  passed-CheckedSafe : (m : Mppt F) → ConverterSafe m → CheckedSafe (passed m)
  passed-CheckedSafe m s = record { holds = s }

  tripped-CheckedSafe : (m : Mppt F) → ConverterSafe m → CheckedSafe (tripped m)
  tripped-CheckedSafe m s = record { holds = s }

  trip_if-CheckedSafe :
      (now sec : ℕ) (test : Bool) (m : Mppt F)
      → ConverterSafe m
      → CheckedSafe (trip_if now sec test m)
  trip_if-CheckedSafe now sec test m s =
      if-CheckedSafe test _ _ (tripped-CheckedSafe _ (shutdown_dcdc-safe now sec m s))
        (passed-CheckedSafe m s)

  redetect_lem : (now : ℕ) (m : Mppt F) → IsSafe m.converter → IsSafe (redetect now m).converter
  redetect_lem now m s = ground arith

  redetect-safe : (now : ℕ) (m : Mppt F) → ConverterSafe m → ConverterSafe (redetect now m)
  redetect-safe now m s = record { safe = redetect_lem now m s.safe }

  check_vout-CheckedSafe : (now : ℕ) (m : Mppt F) → ConverterSafe m → CheckedSafe (check_vout now m)
  unfolding check_vout
  check_vout-CheckedSafe now m s =
      if-CheckedSafe _ _ _
        (tripped-CheckedSafe _
          (record { safe = (redetect-safe now _ (shutdown_dcdc-safe now 5 m s)).safe }))
        (passed-CheckedSafe m s)

  check_reverse-CheckedSafe :
      (now : ℕ) (m : Mppt F) → ConverterSafe m → CheckedSafe (check_reverse now m)
  unfolding check_reverse
  check_reverse-CheckedSafe now m s =
      if-CheckedSafe _ _ _
        (if-CheckedSafe _ _ _ (passed-CheckedSafe _ (shutdown_dcdc-safe now 5 m s))
          (passed-CheckedSafe _ (record { safe = sync_rect_min_duty-IsSafe m.converter s.safe })))
        (passed-CheckedSafe m s)

  guard_low_current_lem : (m : Mppt F) → IsSafe m.converter → IsSafe (guard_low_current m).converter
  guard_low_current_lem m s = ground (arith, sync_rect_min_duty-IsSafe m.converter s)

  guard_low_current-safe : (m : Mppt F) → ConverterSafe m → ConverterSafe (guard_low_current m)
  guard_low_current-safe m s = record { safe = guard_low_current_lem m s.safe }

  check_buck-CheckedSafe : (now : ℕ) (m : Mppt F) → ConverterSafe m → CheckedSafe (check_buck now m)
  unfolding check_buck
  check_buck-CheckedSafe now m s = if-CheckedSafe _ _ _ (passed-CheckedSafe m s) (
      bind-CheckedSafe _ _
        (bind-CheckedSafe _ _ (trip_if-CheckedSafe now 5 (vout_above_vin_avg m) m s)
          (λ n r. trip_if-CheckedSafe now 5 (vout_above_twice_vin n) n r))
        (λ n r. passed-CheckedSafe _ (guard_low_current-safe n r)))

  check_switch-CheckedSafe :
      (now : ℕ) (m : Mppt F) → ConverterSafe m → CheckedSafe (check_switch now m)
  unfolding check_switch
  check_switch-CheckedSafe now m s =
      if-CheckedSafe (switch_open m) _ _
        (bind-CheckedSafe _ _ (trip_if-CheckedSafe now 5 (lt (dec 6 0) (avg (physical_i m))) m s)
          (λ n r. trip_if-CheckedSafe now 5 (lt (dec 33 2) (get_duty_cycle n.converter)) n r))
        (passed-CheckedSafe m s)

  check_ratio-CheckedSafe :
      (now : ℕ) (m : Mppt F) → ConverterSafe m → CheckedSafe (check_ratio now m)
  unfolding check_ratio
  check_ratio-CheckedSafe now m s =
      trip_if-CheckedSafe now 5 _ _
        (record { safe = update_sync_rect_max_duty-IsSafe _ _ _ m.converter s.safe })

  checks-CheckedSafe : (now : ℕ) (m : Mppt F) → ConverterSafe m → CheckedSafe (checks now m)
  unfolding checks
  checks-CheckedSafe now m s =
      bind-CheckedSafe _ _
        (bind-CheckedSafe _ _
          (bind-CheckedSafe _ _
            (bind-CheckedSafe _ _
              (bind-CheckedSafe _ _
                (bind-CheckedSafe _ _
                  (bind-CheckedSafe _ _
                    (bind-CheckedSafe _ _
                      (bind-CheckedSafe _ _
                        (bind-CheckedSafe _ _ (trip_if-CheckedSafe now 5 (vin_over_voltage m) m s)
                          (check_vout-CheckedSafe now))
                        (λ n r. trip_if-CheckedSafe now 5 (iin_over_current n) n r))
                      (λ n r. trip_if-CheckedSafe now 30 (iout_over_current n) n r))
                    (check_reverse-CheckedSafe now))
                  (λ n r. trip_if-CheckedSafe now 5 (reverse_average n) n r))
                (check_buck-CheckedSafe now))
              (λ n r. trip_if-CheckedSafe now 30 (short_circuit n) n r))
            (check_switch-CheckedSafe now))
          (λ n r. trip_if-CheckedSafe now 5 (diode_over_current n) n r))
        (check_ratio-CheckedSafe now)

  finish-safe : (now : ℕ) (c : Checked F) → CheckedSafe c → ConverterSafe (finish now c).0
  finish-safe now (tripped m) s = s.holds
  finish-safe now (passed m) s = record { safe = s.holds.safe }

  -- Whatever `protect` decides, the converter stays in its bounds.
  pub protect-safe : (now : ℕ) (m : Mppt F) → ConverterSafe m → ConverterSafe (protect now m).0
  unfolding protect
  protect-safe now m s = finish-safe now (checks now m) (checks-CheckedSafe now m s)

  outcome-safe : (c : Checked F) → CheckedSafe c → ConverterSafe (outcome c).0
  outcome-safe (tripped m) s = s.holds
  outcome-safe (passed m) s = s.holds

  check_battery-CheckedSafe : (m : Mppt F) → ConverterSafe m → CheckedSafe (check_battery m)
  check_battery-CheckedSafe m s = if-CheckedSafe _ _ _ (passed-CheckedSafe m s) (
      if-CheckedSafe _ _ _
        (tripped-CheckedSafe _ (record { safe = disable-IsSafe m.converter s.safe }))
        (passed-CheckedSafe _ (record { safe = s.safe })))

  check_supply-CheckedSafe :
      (now : ℕ) (ignore_uv : Bool) (m : Mppt F)
      → ConverterSafe m
      → CheckedSafe (check_supply now ignore_uv m)
  check_supply-CheckedSafe now ignore_uv m s =
      if-CheckedSafe _ _ _
        (tripped-CheckedSafe _ (record { safe = (shutdown_dcdc-safe now 5 m s).safe }))
        (passed-CheckedSafe m s)

  check_temperature-CheckedSafe : (m : Mppt F) → ConverterSafe m → CheckedSafe (check_temperature m)
  check_temperature-CheckedSafe m s =
      if-CheckedSafe _ _ _ (tripped-CheckedSafe m s) (passed-CheckedSafe m s)

  pub protect_lf-safe :
      (now : ℕ) (ignore_uv : Bool) (m : Mppt F)
      → ConverterSafe m
      → ConverterSafe (protect_lf now ignore_uv m).0
  unfolding protect_lf
  protect_lf-safe now ignore_uv m s =
      let battery =
        bind-CheckedSafe (check_supply now ignore_uv m) check_battery
          (check_supply-CheckedSafe now ignore_uv m s) check_battery-CheckedSafe in
      let all =
        bind-CheckedSafe (check_supply now ignore_uv m >>= check_battery) check_temperature battery
          check_temperature-CheckedSafe in
      outcome-safe (check_supply now ignore_uv m >>= check_battery >>= check_temperature) all
