-- ===== src/Mppt.antt =====
-- `class MpptController` of src/mppt.h and src/mppt.cpp: its state, with the converter, the charger and
-- the sampler that it drives. The children hold its methods.
pub mod Backflow
pub mod Tracking
pub mod Backoff
pub mod Protect
pub mod Slow
pub mod Sweeping
pub mod Control
pub mod Manual
pub mod Guarded
pub mod Safety
pub mod Steering
pub mod Tests
use fugu_mppt_firmware.Prelude.{ℕ, ◌==◌, Bool, true, false, List, if◌then◌else◌}
use fugu_mppt_firmware.Float.{Float}
use fugu_mppt_firmware.Signal.Pd.{Pd}
use fugu_mppt_firmware.Converter.{Converter}
use fugu_mppt_firmware.Charger.Pinning.{Charger}
use fugu_mppt_firmware.Sampler.{Sampler, Sensor}
use fugu_mppt_firmware.Mppt.Backflow.{BackflowDriver}
use fugu_mppt_firmware.Mppt.Tracking.{Tracker}

pub record Limits (F : Type 0) : Type 0 where
  pub vin_max : F
  pub vin_min : F
  pub vout_max : F
  pub iin_max : F
  pub ishort : F
  pub iout_max : F
  pub p_max : F
  pub temp_max : F
  pub temp_derate : F
  pub reverse_current_paranoia : Bool

-- `MpptControlMode`
pub data ControlMode : Type 0 where
  no_mode cv cc cp mppt sweep : ControlMode

-- The MPP during a sweep.
pub record PowerPoint (F : Type 0) : Type 0 where
  pub power : F
  pub voltage : F
  pub duty_cycle : ℕ  -- uint16_t

-- What `enqueue_task` hands to the other core.
pub data Task : Type 0 where
  commit_meter queue_calibration show_overvoltage prepare_sweep show_sweep : Task

pub record Mppt (F : Type 0) : Type 0 where
  pub sampler : Sampler F
  pub converter : Converter F
  pub charger : Charger F
  pub bflow : BackflowDriver
  pub tracker : Tracker F
  pub limits : Limits F
  pub ntc : F
  pub uc_temp : F
  pub cntrl_value : F
  pub mode : ControlMode
  pub limiting : Bool
  pub lim_idx : ℕ
  pub lim_idx_sampled : ℕ
  pub target_duty_cycle : ℕ  -- uint16_t
  pub manual_target : ℕ  -- uint16_t
  pub sweeping : Bool
  pub max_power_point : PowerPoint F
  pub last_time_protect_passed : ℕ  -- uint64_t, in ms
  pub backoff_until_us : ℕ  -- uint64_t
  pub backoff_armed_sec : ℕ  -- uint32_t
  pub vin_controller : Pd F
  pub vout_controller : Pd F
  pub iin_controller : Pd F
  pub iout_current_controller : Pd F
  pub power_controller : Pd F
  pub backflow_at_hv : Bool
  pub auto_detect_vout_max : Bool
  pub target_pwm_cnt : ℕ  -- uint16_t
  pub sweep_speed : F
  pub speed_scale : F
  pub last_us : ℕ  -- uint64_t
  -- the tasks so far, the latest first
  pub tasks : List Task

module _ {F : Type 0} where
  -- `sensorPhysicalI` and `sensorPhysicalU`, as `initSensors` sets them.
  abbrev pub physical_i : Mppt F → Sensor F
  physical_i m = if m.sampler.iout.is_virtual then m.sampler.iin else m.sampler.iout

  abbrev pub physical_u : Mppt F → Sensor F
  physical_u m = if m.sampler.iout.is_virtual then m.sampler.vin else m.sampler.vout

  -- `sensor.ewm.avg.get()`
  abbrev pub avg : Sensor F → F
  avg s = s.ewm.avg.y1
