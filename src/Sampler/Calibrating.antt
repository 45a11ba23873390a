-- ===== src/Sampler/Calibrating.antt =====
-- The offset calibration of `ADC_Sampler` of src/adc/sampling.h: `startCalibration`,
-- `cancelCalibration` and `handleSensorCalib`.
use fugu_mppt_firmware.Prelude.{
  ℕ, ◌+◌, ◌<◌, ◌≡◌, ◌⊎◌, Bool, true, false, ◌&&◌, ◌||◌, not, arith, u8, leb, ltb, ◌==◌, Option,
  none, some, if◌then◌else◌, map,
}
use fugu_mppt_firmware.Float.{Float, f0}
use fugu_mppt_firmware.Signal.Mean
use fugu_mppt_firmware.Sampler.{Sensor, Sampler, SensorParams, real_sensors}
use fugu_mppt_firmware.Sampler.Sensing

-- The results in the order in which `update` takes the largest.
pub data UpdateRet : Type 0 where
  no_new_data new_data calibrating calib_failure adc_error : UpdateRet

module _ {F : Type 0} ⦃fl : Float F⦄ where
  open fl use {mul, lt, fabs, is_finite, dec}

  unfoldable pub is_calibrating : Sampler F → Bool
  is_calibrating a = ltb 0 a.calibrating

  abbrev pub reset_all : Bool → Sampler F → Sampler F
  reset_all resets a = record a {
    vin = Sensing.reset resets a.vin;
    vout = Sensing.reset resets a.vout;
    iin = Sensing.reset resets a.iin;
    iout = Sensing.reset resets a.iout;
    others = map (Sensing.reset resets) a.others;
  }

  -- The resets of the converters' drivers are left out.
  unfoldable pub start_calibration : Sampler F → Sampler F
  start_calibration a = record (reset_all true a) { calibrating = u8 (real_sensors a) }

  unfoldable pub cancel_calibration : Sampler F → Sampler F
  cancel_calibration a =
      if a.calibrating == 0 then a else record (reset_all false a) { calibrating = 0 }

  -- The constraints on the offset and on the spread that fail a calibration.
  abbrev pub out_of_range : SensorParams F → F → Bool
  out_of_range p avg = not (is_finite avg) || lt p.max_abs_value (fabs avg)

  abbrev pub too_noisy : SensorParams F → F → F → Bool
  too_noisy p avg std =
      (lt (fabs avg) (dec 1 9) || is_finite std) && lt p.max_stddev (mul std (fabs avg))

  abbrev pub refused : SensorParams F → F → F → Bool
  refused p avg std = out_of_range p avg || too_noisy p avg std

  -- One sensor's calibration is over, with its mean and spread. The assertion that the counter is
  -- below the number of sensors is `none`.
  abbrev pub settle :
      (now : ℕ) → Sensor F → Sampler F → F → F → Option (Sensor F × Sampler F × UpdateRet)
  settle now s a avg std =
      if not a.ignore_calibration_constraints && refused s.params avg std
      then some (s, record a { calibrating = 0 }, calib_failure)
      else (let s' = Sensing.reset false (record s { calibration_avg = avg }) in
          let left = u8 (a.calibrating + 255) in
          if not (ltb left (real_sensors a))
          then none
          else if left == 0
          then some (s', record a { calibrating = left; time_last_calibration = now }, calibrating)
          else some (s', record a { calibrating = left }, no_new_data))

  abbrev pub collect : (now : ℕ) → Sampler F → Sensor F → Option (Sensor F × Sampler F × UpdateRet)
  collect now a s =
      if ltb 100 s.calib_buffer.num
      then (let (avg, cleared) = Mean.pop s.calib_buffer in
          settle now (record s { calib_buffer = cleared }) a avg s.ewm.std.y)
      else some (s, a, no_new_data)

  -- `none` is a failed assertion.
  unfoldable pub handle_sensor_calib :
      (now : ℕ) → Sensor F → Sampler F → Option (Sensor F × Sampler F × UpdateRet)
  handle_sensor_calib now s a =
      if ltb 0 a.calibrating && leb 100 s.num_samples
      then (elim (Mean.add s.last s.calib_buffer) [
        | none ↦ none
        | some b ↦ collect now a (record s { calib_buffer = b })
      ])
      else some (s, a, no_new_data)

  -- Starting a calibration keeps the samples that a cancelled one had collected of the output current,
  -- if its offset was zero, as it is before the first calibration.
  pub cancelled_samples_kept :
      (a : Sampler F)
      → fl.eq a.iout.calibration_avg f0 ≡ true
      → (start_calibration (cancel_calibration a)).iout.calib_buffer ≡ a.iout.calib_buffer
  unfolding start_calibration cancel_calibration Sensing.reset
  cancelled_samples_kept a h = ground arith

  -- A step fails the calibration, or ends it with its last sensor, or closes one sensor at most.
  abbrev pub IsStep : (now : ℕ) → Sampler F → Sampler F → UpdateRet → Type 0
  IsStep now a a' r =
      (r ≡ calib_failure) × (a'.calibrating ≡ 0)
      ⊎ ((r ≡ calibrating)
          × (a.calibrating ≡ 1)
          × (a'.calibrating ≡ 0)
          × (a'.time_last_calibration ≡ now))
      ⊎ ((r ≡ no_new_data)
          × (a'.time_last_calibration ≡ a.time_last_calibration)
          × ((a'.calibrating ≡ a.calibrating)
              ⊎ ((a'.calibrating + 1 ≡ a.calibrating) × (0 < a'.calibrating))))

  -- A calibration step fails, and the calibration is over; or it succeeds with the last open sensor,
  -- and the calibration is over and is stamped with the time; or it keeps the stamp and closes at most
  -- one sensor, which is not the last one.
  pub handle_sensor_calib_lem :
      (now : ℕ) (s s' : Sensor F) (a a' : Sampler F) (r : UpdateRet)
      → a.calibrating < 256
      → handle_sensor_calib now s a ≡ some (s', a', r)
      → IsStep now a a' r
  unfolding handle_sensor_calib Mean.add
  handle_sensor_calib_lem now s s' a a' r w h = ground arith
