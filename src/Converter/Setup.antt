-- ===== src/Converter/Setup.antt =====
-- The end of `SynchronousConverter::init` (src/buck.h): the limits of the two on-times, from the
-- driver's resolution and the bootstrap-refresh time, and a converter that has not been moved yet.
use fugu_mppt_firmware.Prelude.{
  ℕ, ◌+◌, ◌-◌, ◌<◌, ◌≡◌, Bool, false, arith, if◌then◌else◌, u16, [], Bool-cases, inl, inr,
}
use fugu_mppt_firmware.Prelude.Int.{ℤ, pos, negsuc, u16_of_int, i16_of_int}
use fugu_mppt_firmware.Float.{Float, f0}
use fugu_mppt_firmware.Converter.{Converter, Config, get_pwm_tick_rate}
use fugu_mppt_firmware.Converter.Timing.{rect_offset_counts_from_ns}
use fugu_mppt_firmware.Converter.Bounds.{IsSafe}

module _ {F : Type 0} ⦃fl : Float F⦄ where
  open fl use {mul, dec, of_int, to_int, ceil}

  -- The LS on-time that refreshes the bootstrap capacitor, in counts.
  unfoldable pub boot_refresh_counts : F → Config F → ℤ
  boot_refresh_counts boot_refresh_ns g = to_int (
      ceil (
        mul (mul (mul boot_refresh_ns (dec 1 9)) (of_int (pos g.pwm_frequency)))
          (of_int (pos g.driver_pwm_max))))

  unfoldable pub set_limits : F → Config F → Config F
  set_limits boot_refresh_ns g =
      let rect_min = if g.is_boost then 0 else u16_of_int (boot_refresh_counts boot_refresh_ns g) in
      record g {
        pwm_rect_min = rect_min;
        pwm_ctrl_max = u16 (g.driver_pwm_max + 65536 - rect_min);
        pwm_ctrl_min = 1;
      }

  -- The members' initial values, with the offset that `init` reads at its end.
  unfoldable pub initial :
      (boot_refresh_ns rect_offset_ns : F) → (forced : Bool) → Config F → Converter F
  initial boot_refresh_ns rect_offset_ns forced g =
      let limited = set_limits boot_refresh_ns g in
      let c : Converter F = record {
        config = limited;
        dcm_hysteresis = false;
        sync_rect_enabled = false;
        forced_pwm = forced;
        pwm_ctrl = 0;
        pwm_rect = 0;
        pwm_rect_max = 0;
        manual_rect = negsuc 0;
        pwm_rect_ratio_dcm = f0;
        rect_dither_err = f0;
        rect_on_offset = pos 0;
        out_in_voltage_ratio = f0;
        direction_float_buffer = f0;
        writes = [];
      } in
      record c {
        rect_on_offset =
            i16_of_int (rect_offset_counts_from_ns rect_offset_ns (get_pwm_tick_rate c));
      }

  -- If the driver's resolution has 16 bits and the bootstrap refresh is a number of counts below it, which
  -- `init` does not check, `init` hands over a converter that satisfies the invariant of every later
  -- operation.
  pub initial-IsSafe :
      (boot_refresh_ns rect_offset_ns : F) (forced : Bool) (g : Config F) (k : ℕ)
      → g.driver_pwm_max < 65536
      → boot_refresh_counts boot_refresh_ns g ≡ pos k
      → k < g.driver_pwm_max
      → IsSafe (initial boot_refresh_ns rect_offset_ns forced g)
  unfolding initial set_limits
  initial-IsSafe boot_refresh_ns rect_offset_ns forced g k w e h = elim (Bool-cases g.is_boost) [
    | inl b ↦ rw (e, b) (omega arith)
    | inr b ↦ rw (e, b) (omega arith)
  ]
