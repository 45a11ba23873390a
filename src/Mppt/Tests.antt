-- ===== src/Mppt/Tests.antt =====
-- The controller of src/mppt.h and src/mppt.cpp over `Fixed`: its theorems at concrete inputs.
use fugu_mppt_firmware.Prelude.{◌≡◌, refl, true, false, arith, none, [], ◌∷◌}
use fugu_mppt_firmware.Float.Fixed.{Fixed, fixed_float, millionths}
use fugu_mppt_firmware.Signal.Pd.{Pd}
use fugu_mppt_firmware.Converter.Tests.{buck}
use fugu_mppt_firmware.Charger.Tests.{charger}
use fugu_mppt_firmware.Sampler.Tests.{sampler, steady}
use fugu_mppt_firmware.Mppt.{Mppt, mppt}
use fugu_mppt_firmware.Mppt.Tracking.{Tracker}
use fugu_mppt_firmware.Mppt.Backoff.{in_backoff, start_condition}
use fugu_mppt_firmware.Mppt.Protect.{protect, checks}
use fugu_mppt_firmware.Mppt.Guarded.{shutdowns, shutdowns-deadline, protect-IsOff, IsOff}

abbrev pd : Pd Fixed
pd = record {
  kp = millionths 100_000_000;
  kd = millionths 0;
  normalize = true;
  prev_e = none;
  smooth = none;
}

abbrev tracker : Tracker Fixed
tracker = record {
  min_power_step = millionths 1_000_000;
  min_power_step_rel = millionths 1_000_000;
  frequency = millionths 20_000_000;
  direction = true;
  time = 0;
  time_last_reverse = 50_000;
  cur_power = millionths 140_000_000;
  last_power = millionths 140_000_000;
  last_vin = millionths 40_000_000;
  power_buf = record { sum = millionths 0; num = 0 };
  vin_buf = record { sum = millionths 0; num = 0 };
  max_power_point = record {
    power = millionths 150_000_000;
    timestamp = 10_000;
    duty_cycle = 2_600;
    vin = millionths 38_000_000;
  };
  dp = millionths 0;
  slow_mode = false;
}

abbrev pub running : Mppt Fixed
running = record {
  sampler = sampler;
  converter = buck;
  charger = charger;
  bflow = record { on = true; en_pin = 5; sd_pin = 0; levels = [] };
  tracker = tracker;
  limits = record {
    vin_max = millionths 80_000_000;
    vin_min = millionths 10_000_000;
    vout_max = millionths 29_000_000;
    iin_max = millionths 30_000_000;
    ishort = millionths 40_000_000;
    iout_max = millionths 30_000_000;
    p_max = millionths 800_000_000;
    temp_max = millionths 90_000_000;
    temp_derate = millionths 80_000_000;
    reverse_current_paranoia = true;
  };
  ntc = millionths 40_000_000;
  uc_temp = millionths 45_000_000;
  cntrl_value = millionths 0;
  mode = mppt;
  limiting = false;
  lim_idx = 15;
  lim_idx_sampled = 15;
  target_duty_cycle = 0;
  manual_target = 0;
  sweeping = false;
  max_power_point = record {
    power = millionths 120_000_000;
    voltage = millionths 38_000_000;
    duty_cycle = 2_600;
  };
  last_time_protect_passed = 1_000;
  backoff_until_us = 0;
  backoff_armed_sec = 0;
  vin_controller = pd;
  vout_controller = pd;
  iin_controller = pd;
  iout_current_controller = pd;
  power_controller = pd;
  backflow_at_hv = false;
  auto_detect_vout_max = true;
  target_pwm_cnt = 0;
  sweep_speed = millionths 4_000_000;
  speed_scale = millionths 1_000_000;
  last_us = 2_000_000;
  tasks = [];
}

-- A backoff of 30 s.
abbrev backing_off : Mppt Fixed
backing_off = record running { backoff_until_us = 33_000_000; backoff_armed_sec = 30 }

shutdowns-deadline_example :
    let m = shutdowns ((4_000_000, 5) ∷ (5_000_000, 30) ∷ (32_000_000, 5) ∷ []) backing_off in
    (m.backoff_until_us ≡ 33_000_000) × (in_backoff 33_000_000 m ≡ false)
unfolding in_backoff
shutdowns-deadline_example =
    shutdowns-deadline ((4_000_000, 5) ∷ (5_000_000, 30) ∷ (32_000_000, 5) ∷ []) 33_000_000
      backing_off ((refl, omega arith), ((refl, omega arith), ((refl, omega arith), _)))
      (omega arith)

-- 85 V at the input.
abbrev pub over_voltage : Mppt Fixed
over_voltage = record running { sampler = record sampler { vin = steady (millionths 85_000_000) } }

protect-IsOff_example :
    IsOff 3_000_000 (protect 3_000_000 over_voltage).0
    × (start_condition 3_000_000 (protect 3_000_000 over_voltage).0 ≡ false)
unfolding protect checks
protect-IsOff_example = protect-IsOff 3_000_000 over_voltage (omega arith) refl
