-- ===== src/Sampler.antt =====
-- The state of src/adc/sampling.h: a `Sensor` with its filters, and the part of `ADC_Sampler` that
-- the calibration works on. The sensors that the controller reads by name come first.
pub mod Sensing
pub mod Calibrating
pub mod Cycle
pub mod Polling
pub mod Rounds
pub mod Results
pub mod Tests
use fugu_mppt_firmware.Prelude.{ℕ, ◌+◌, Bool, List, [], ◌∷◌, if◌then◌else◌}
use fugu_mppt_firmware.Signal.Mean.{MeanAccumulator}
use fugu_mppt_firmware.Signal.Median.{RunningMedian5}
use fugu_mppt_firmware.Signal.TwoPass.{Ewm}

pub record SensorParams (F : Type 0) : Type 0 where
  pub factor : F
  pub midpoint : F
  pub max_abs_value : F
  pub max_stddev : F
  pub calibrate_offset : Bool

pub record Sensor (F : Type 0) : Type 0 where
  pub params : SensorParams F
  pub last : F
  pub last_raw : F
  pub previous : F
  pub num_samples : ℕ  -- uint32_t
  pub med3 : RunningMedian5 F
  pub despike_scale : F
  pub despike_trips : ℕ  -- uint32_t
  pub ewm : Ewm F
  pub calib_buffer : MeanAccumulator F
  pub calibration_avg : F
  pub is_virtual : Bool

pub record Sampler (F : Type 0) : Type 0 where
  pub ignore_calibration_constraints : Bool
  pub calibrating : ℕ  -- uint8_t
  pub time_last_calibration : ℕ
  pub vin : Sensor F
  pub vout : Sensor F
  pub iin : Sensor F
  pub iout : Sensor F
  pub others : List (Sensor F)

abbrev count_real : {F : Type 0} → List (Sensor F) → ℕ
count_real [] = 0
count_real (s ∷ ss) = let rest = count_real ss in if s.is_virtual then rest else rest + 1

-- `realSensors.size()`
abbrev pub real_sensors : {F : Type 0} → Sampler F → ℕ
real_sensors a = count_real (a.vin ∷ a.vout ∷ a.iin ∷ a.iout ∷ a.others)
