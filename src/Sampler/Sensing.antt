-- ===== src/Sampler/Sensing.antt =====
-- `Sensor::reset` and `Sensor::add_sample` of src/adc/sampling.h.
use fugu_mppt_firmware.Prelude.{◌+◌, Bool, false, ◌&&◌, not, u32, Option, none, some, if◌then◌else◌}
use fugu_mppt_firmware.Float.{Float, f0}
use fugu_mppt_firmware.Signal.Mean
use fugu_mppt_firmware.Signal.Median
use fugu_mppt_firmware.Signal.TwoPass
use fugu_mppt_firmware.Sampler.{Sensor, SensorParams}

module _ {F : Type 0} ⦃fl : Float F⦄ where
  open fl use {sub, mul, div, lt, eq, fabs, nan, dec}

  -- `LinearTransform::apply`
  unfoldable pub apply : SensorParams F → F → F
  apply p x = mul (sub x p.midpoint) p.factor

  unfoldable pub apply_inverse : SensorParams F → F → F
  apply_inverse p y = fl.add (div y p.factor) p.midpoint

  unfoldable pub reset : (reset_calibration : Bool) → Sensor F → Sensor F
  reset reset_calibration s =
      let s' : Sensor F = record s {
        last = nan;
        previous = nan;
        num_samples = 0;
        med3 = Median.reset5 s.med3;
        despike_scale = f0;
        ewm = TwoPass.reset_ewm s.ewm;
      } in
      if reset_calibration && not (eq s.calibration_avg f0)
      then record s' { calibration_avg = f0; calib_buffer = Mean.clear s.calib_buffer }
      else s'

  -- The value that goes on to the average, with the new scale and whether it was clipped.
  abbrev pub despike : F → F → Sensor F → F → F × F × Bool
  despike v m s =
      let dev = fabs (sub v m) in
      λ k.
        (let clip = lt f0 s.despike_scale && lt (mul k s.despike_scale) dev in
          let scale : F =
            if lt f0 s.despike_scale
            then fl.add s.despike_scale (mul (dec 95 3) (sub dev s.despike_scale))
            else dev in
          (if clip then m else v, scale, clip))

  -- `notch` is the notch filter's response to this sample, if the sensor has one. The adaptive noise
  -- filter, which is for diagnostics only, is left out.
  unfoldable pub add_sample : (despike_k : F) (notch : Option (F → F)) → F → Sensor F → Sensor F
  add_sample despike_k notch x s =
      let v0 = apply s.params x in
      let v1 : F = if s.params.calibrate_offset then sub v0 s.calibration_avg else v0 in
      let v2 : F = elim notch [ none ↦ v1 | some filter ↦ filter v1 ] in
      let med = Median.next5 v2 s.med3 in
      let (v, scale, clip) =
        if lt f0 despike_k
        then despike v2 med.last s despike_k
        else (med.last, s.despike_scale, false) in
      record s {
        previous = s.last;
        last = v1;
        last_raw = x;
        med3 = med;
        despike_scale = scale;
        despike_trips = if clip then u32 (s.despike_trips + 1) else s.despike_trips;
        ewm = TwoPass.add v s.ewm;
        num_samples = u32 (s.num_samples + 1);
      }
