-- ===== src/RealTime/Tests.antt =====
-- The real-time loop of src/main.cpp over `Fixed`: its theorems at concrete inputs.
use fugu_mppt_firmware.Prelude.{◌≡◌, refl, true, false, arith, some, [], ◌∷◌, inl}
use fugu_mppt_firmware.Float.Fixed.{Fixed, fixed_float, millionths}
use fugu_mppt_firmware.Converter.{disabled}
use fugu_mppt_firmware.Converter.Calls.{force_pwm}
use fugu_mppt_firmware.Charger.Tests.{charger}
use fugu_mppt_firmware.Sampler.Calibrating.{is_calibrating}
use fugu_mppt_firmware.Sampler.Tests.{sampler}
use fugu_mppt_firmware.Mppt.Tests.{running, over_voltage}
use fugu_mppt_firmware.Mppt.Backoff.{start_condition}
use fugu_mppt_firmware.Mppt.Guarded.{IsOff}
use fugu_mppt_firmware.RealTime.{RealTime, Input, loop_rt_new_data}
use fugu_mppt_firmware.RealTime.Hazards.{hazard_stops}

abbrev pub loop_state : RealTime Fixed
loop_state = record {
  mppt = running;
  manual_pwm = false;
  delay_start_until = 0;
  last_num_samples = 100;
  time_last_sampler = 2_900_000;
  bms_boot_deadline = 0;
  bms_was_fresh = true;
}

-- One iteration without a new sample.
abbrev pub input : Input Fixed
input = record {
  now = 3_000_000;
  timer = 3_000_000;
  sampler = sampler;
  charger = charger;
  ntc = millionths 40_000_000;
  uc_temp = millionths 45_000_000;
  manual_pwm = false;
  manual_target = 0;
  console = force_pwm false ∷ [];
}

abbrev tripped_state : RealTime Fixed
tripped_state = record loop_state { mppt = over_voltage }

-- In manual mode, with the fade-in behind the control.
hazard_stops_example :
    (q : RealTime Fixed) × (loop_rt_new_data 3_000_000 3_000_000
        (record tripped_state { manual_pwm = true })
      ≡ some q)
    × IsOff 3_000_000 q.mppt
    × (start_condition 3_000_000 q.mppt ≡ false)
    × (q.delay_start_until ≡ 7_000_000)
unfolding disabled is_calibrating
hazard_stops_example =
    hazard_stops 3_000_000 3_000_000 (record tripped_state { manual_pwm = true }) (omega arith) refl
      refl (inl refl)
