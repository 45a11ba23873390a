-- ===== src/Converter.antt =====
-- `class SynchronousConverter` of src/buck.h: its state, and the writes that it sends to the gate
-- drivers and to the shutdown pin. The children hold its methods.
pub mod Driver
pub mod Rect
pub mod Perturb
pub mod Timing
pub mod Setup
pub mod Calls
pub mod Bounds
pub mod Safety
pub mod Diode
pub mod Registers
pub mod Tests
use fugu_mppt_firmware.Prelude.{
  ℕ, ◌==◌, ◌+◌, ◌*◌, ◌≤◌, ◌<◌, ◌≡◌, ◌⊎◌, Bool, List, if◌then◌else◌, ltb, not,
}
use fugu_mppt_firmware.Prelude.Int.{ℤ, pos, neg_part}
use fugu_mppt_firmware.Float.{Float}

-- A call into the LEDC driver, the MCPWM driver or the GPIO matrix. The channel `ctrl` is
-- `pwmCh_Ctrl`, `rect` is `pwmCh_Rect`.
pub data Channel : Type 0 where
  ctrl rect : Channel

pub data Write : Type 0 where
  digital_write : ℕ → Bool → Write
  update_pwm : Channel → ℕ → Write
  update_pwm_at : Channel → ℕ → ℕ → Write
  stop : Channel → Bool → Write
  set_hs_off : ℕ → Write
  set_ls_off : ℕ → Write
  clear_force : Write
  force_shutdown : Write

-- What `init` settles, and what stays as it is while the converter runs.
pub record Config (F : Type 0) : Type 0 where
  pub use_mcpwm : Bool
  pub driver_pwm_max : ℕ  -- uint16_t
  pub pwm_en_logic : Bool
  pub pin_sd : ℕ  -- uint8_t, 255 if there is none
  pub rect_dither : Bool
  pub is_boost : Bool
  pub fl_product : F  -- `fL`, the switching frequency times the inductivity
  pub pwm_frequency : ℕ
  pub pwm_ctrl_max : ℕ  -- uint16_t
  pub pwm_rect_min : ℕ  -- uint16_t
  pub pwm_ctrl_min : ℕ  -- uint16_t

pub record Converter (F : Type 0) : Type 0 where
  pub config : Config F
  pub dcm_hysteresis : Bool
  pub sync_rect_enabled : Bool
  pub forced_pwm : Bool
  pub pwm_ctrl : ℕ  -- uint16_t
  pub pwm_rect : ℕ  -- uint16_t
  pub pwm_rect_max : ℕ  -- uint16_t
  pub manual_rect : ℤ  -- int32_t
  pub pwm_rect_ratio_dcm : F
  pub rect_dither_err : F
  pub rect_on_offset : ℤ  -- int16_t
  pub out_in_voltage_ratio : F
  pub direction_float_buffer : F
  -- the writes so far, the latest first
  pub writes : List Write

module _ {F : Type 0} where
  unfoldable pub disabled : Converter F → Bool
  disabled c = c.pwm_ctrl == 0

  abbrev pub has_pin_sd : Converter F → Bool
  has_pin_sd c = not (c.config.pin_sd == 255)

  -- `manualRect >= 0`
  abbrev pub manual_rect_ : Converter F → Bool
  manual_rect_ c = neg_part c.manual_rect == 0

  unfoldable pub get_low_side_on_pwm_cnt : Converter F → ℕ
  get_low_side_on_pwm_cnt c = if c.config.is_boost then c.pwm_ctrl else c.pwm_rect

  unfoldable pub get_low_side_min_pwm_cnt : Converter F → ℕ
  get_low_side_min_pwm_cnt c = if c.config.is_boost then 0 else c.config.pwm_rect_min

  unfoldable pub get_duty_cycle : ⦃fl : Float F⦄ → Converter F → F
  get_duty_cycle ⦃fl⦄ c =
      fl.div (fl.of_int (pos c.pwm_ctrl)) (fl.of_int (pos c.config.pwm_ctrl_max))

  -- `getPwmTickRate`
  unfoldable pub get_pwm_tick_rate : ⦃fl : Float F⦄ → Converter F → F
  get_pwm_tick_rate ⦃fl⦄ c =
      fl.mul (fl.of_int (pos c.config.pwm_frequency)) (fl.of_int (pos c.config.driver_pwm_max))
