-- ===== src/Sampler/Tests.antt =====
-- The sampler of src/adc/sampling.h over `Fixed`: its theorems at concrete inputs.
use fugu_mppt_firmware.Prelude.{◌≡◌, refl, true, false, none, some, List, [], ◌∷◌, inl, inr, arith}
use fugu_mppt_firmware.Float.Fixed.{Fixed, fixed_float, millionths}
use fugu_mppt_firmware.Sampler.{Sensor, Sampler}
use fugu_mppt_firmware.Sampler.Calibrating.{adc_error}
use fugu_mppt_firmware.Sampler.Cycle.{build_cycle_order, interleave}
use fugu_mppt_firmware.Sampler.Polling.{
  vin_slot, vout_slot, iout_slot, muxed_round_robin, streamed_callback, AdcState, Reading, Setting,
  begin_cycle, update_adc, update,
}
use fugu_mppt_firmware.Sampler.Rounds.{advances, begin_cycle-advances}
use fugu_mppt_firmware.Sampler.Results.{update-dead}

-- A sensor whose filters are all at the same value.
abbrev pub steady : Fixed → Sensor Fixed
steady v = record {
  params = record {
    factor = millionths 1_000_000;
    midpoint = millionths 0;
    max_abs_value = millionths 100_000_000;
    max_stddev = millionths 1_000_000;
    calibrate_offset = false;
  };
  last = v;
  last_raw = v;
  previous = v;
  num_samples = 100;
  med3 = record { b = v ∷ v ∷ v ∷ v ∷ v ∷ []; last = v; pos = 0 };
  despike_scale = millionths 0;
  despike_trips = 0;
  ewm = record {
    last_x = v;
    avg = record { alpha = millionths 100_000; y0 = v; y1 = v };
    std = record { alpha = millionths 100_000; y = millionths 0 };
  };
  calib_buffer = record { sum = millionths 0; num = 40 };
  calibration_avg = millionths 0;
  is_virtual = false;
}

-- A converter from 40 V to 27 V.
abbrev pub sampler : Sampler Fixed
sampler = record {
  ignore_calibration_constraints = false;
  calibrating = 0;
  time_last_calibration = 1_000_000;
  vin = steady (millionths 40_000_000);
  vout = steady (millionths 27_000_000);
  iin = record (steady (millionths 4_000_000)) { is_virtual = true };
  iout = steady (millionths 5_000_000);
  others = [];
}

abbrev calibrating_sampler : Sampler Fixed
calibrating_sampler = record sampler { calibrating = 3 }

-- A multiplexed converter with three sensors.
abbrev muxed : AdcState
muxed = record {
  read_mode = muxed_round_robin;
  sensor_by_ch = [];
  cycle_sensors = (vin_slot, 3) ∷ (iout_slot, 1) ∷ (vout_slot, 0) ∷ [];
  cycle_order = [];
  cycle_pos = 0;
  started = 0;
}

-- The output voltage is read at every second poll.
begin_cycle-advances_example :
    (st' : AdcState) × (begin_cycle muxed ≡ some st')
    × (advances 4 st'
        ≡ some ((vin_slot, 3) ∷ (vout_slot, 0) ∷ (iout_slot, 1) ∷ (vout_slot, 0) ∷ [], st'))
unfolding build_cycle_order interleave
begin_cycle-advances_example = begin_cycle-advances muxed (omega arith) (omega arith)

abbrev setting : Setting Fixed
setting = record { now = 2_000_000; despike_k = millionths 0; notch = λ slot. none }

-- Two converters that stream; the second one's driver is not good any more.
abbrev streaming : AdcState
streaming = record muxed { read_mode = streamed_callback; sensor_by_ch = none ∷ [] }

abbrev dead_reading : Reading Fixed
dead_reading = record {
  has_data = false;
  is_good = false;
  streamed = [];
  sampled = λ ch. millionths 0;
}

abbrev polls : List (Reading Fixed × AdcState)
polls = (record dead_reading { is_good = true }, streaming) ∷ (dead_reading, streaming) ∷ []

update-dead_example : adc_error ≡ adc_error
unfolding update update_adc
update-dead_example =
    update-dead setting [] polls sampler (streaming ∷ streaming ∷ [], sampler, adc_error)
      (inr (inl refl)) refl
