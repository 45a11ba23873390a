-- ===== src/Converter/Tests.antt =====
-- Runs of the converter (src/buck.h) over `Fixed`, and its theorems at concrete inputs.
use fugu_mppt_firmware.Prelude.{
  ℕ, ◌+◌, ◌≤◌, ◌<◌, ◌≡◌, ◌/◌, ◌⊎◌, refl, true, false, arith, none, some, [], ◌∷◌, inr,
}
use fugu_mppt_firmware.Prelude.Int.{pos, negsuc, constrain}
use fugu_mppt_firmware.Float.Fixed.{Fixed, fixed_float, millionths}
use fugu_mppt_firmware.Converter.{Converter, Config, disabled, set_hs_off, set_ls_off}
use fugu_mppt_firmware.Converter.Driver.{drv_commit, drv_commit_ls_off, legacy_large_decrease}
use fugu_mppt_firmware.Converter.Rect.{
  compute_pwm_rect_max, compute_dcm, compute_sync_rect_ratio, update_sync_rect_max_duty,
  conv_ratio_wce, rect_ctrl_ratio, ripple_current,
}
use fugu_mppt_firmware.Converter.Perturb.{pwm_perturb, update_rect, start_move, is_enabling}
use fugu_mppt_firmware.Converter.Timing.{PwmTiming, best_timing, find_prescaler, best_timing_lem}
use fugu_mppt_firmware.Converter.Setup.{initial, initial-IsSafe, boot_refresh_counts}
use fugu_mppt_firmware.Converter.Bounds.{IsSafe, pwm_perturb_fits}
use fugu_mppt_firmware.Converter.Calls.{
  calls, calls-IsSafe, perturb, perturb_fractional, sync_rect, manual, disabling,
}
use fugu_mppt_firmware.Converter.Diode.{full_duty_overruns}
use fugu_mppt_firmware.Converter.Registers.{
  Registers, NeverOverlaps, drv_commit-registers, registers, large_decrease_NeverOverlaps,
  small_move_overlaps,
}

-- A buck converter at 39 kHz with 4069 counts, of which 320 are kept for the bootstrap capacitor.
abbrev buck_config : Config Fixed
buck_config = record {
  use_mcpwm = true;
  driver_pwm_max = 4069;
  pwm_en_logic = false;
  pin_sd = 255;
  rect_dither = true;
  is_boost = false;
  fl_product = millionths 2_000_000;
  pwm_frequency = 39_000;
  pwm_ctrl_max = 3749;
  pwm_rect_min = 320;
  pwm_ctrl_min = 1;
}

abbrev pub buck : Converter Fixed
buck = record {
  config = buck_config;
  dcm_hysteresis = false;
  sync_rect_enabled = true;
  forced_pwm = false;
  pwm_ctrl = 1500;
  pwm_rect = 500;
  pwm_rect_max = 0;
  manual_rect = negsuc 0;
  pwm_rect_ratio_dcm = some (pos 0);
  rect_dither_err = some (pos 0);
  rect_on_offset = pos 0;
  out_in_voltage_ratio = some (pos 0);
  direction_float_buffer = some (pos 0);
  writes = [];
}

abbrev boost : Converter Fixed
boost = record buck {
  config = record buck_config {
    use_mcpwm = false;
    is_boost = true;
    pwm_ctrl_max = 4069;
    pwm_rect_min = 0;
  };
  pwm_ctrl = 4068;
  pwm_rect = 0;
}

abbrev ledc : Converter Fixed
ledc = record buck { config = record buck_config { use_mcpwm = false } }

abbrev idle : Registers
idle = record { ctrl_off = 0; rect_on = 0; rect_off = 0; forced_low = false; shut_down = false }

-- The registers of a converter whose on-times are 1700 and 400 counts.
abbrev running : Registers
running = record {
  ctrl_off = 1700;
  rect_on = 1700;
  rect_off = 2100;
  forced_low = false;
  shut_down = false;
}

pub buck-IsSafe : IsSafe buck
buck-IsSafe = omega arith

-- One count up: the rectifier fades in by a 64th of the way to 2567 counts.
step_up :
    let c' = pwm_perturb (pos 1) buck in
    (c'.pwm_ctrl ≡ 1501)
    × (c'.pwm_rect_max ≡ 2567)
    × (c'.pwm_rect ≡ 533)
    × (c'.writes ≡ set_ls_off 2034 ∷ set_hs_off 1501 ∷ [])
unfolding pwm_perturb start_move is_enabling disabled update_rect compute_pwm_rect_max constrain
    drv_commit
step_up = (refl, refl, refl, refl)

pwm_perturb_fits_example :
    let c' = pwm_perturb (pos 10) buck in
    (1 ≤ c'.pwm_ctrl)
    × (c'.pwm_ctrl ≤ 3749)
    × ((buck.config.pwm_rect_min ≡ 0) ⊎ (c'.pwm_ctrl + c'.pwm_rect ≤ 4069))
    × ((3749 ≤ c'.pwm_ctrl) ⊎ (c'.pwm_ctrl + c'.pwm_rect < 4069))
pwm_perturb_fits_example = pwm_perturb_fits (pos 10) buck buck-IsSafe

calls-IsSafe_example : IsSafe (
    calls
      (sync_rect true false
        ∷ perturb (pos 40)
        ∷ perturb_fractional (millionths 1_500_000)
        ∷ manual (pos 900)
        ∷ perturb (negsuc 299)
        ∷ disabling
        ∷ [])
      buck)
calls-IsSafe_example =
    calls-IsSafe
      (sync_rect true false
        ∷ perturb (pos 40)
        ∷ perturb_fractional (millionths 1_500_000)
        ∷ manual (pos 900)
        ∷ perturb (negsuc 299)
        ∷ disabling
        ∷ [])
      buck buck-IsSafe

-- 2 µs at 39 kHz and 4069 counts are 317.4 counts, which are rounded up.
refresh_counts : boot_refresh_counts (millionths 2_000_000_000) buck_config ≡ pos 318
unfolding boot_refresh_counts
refresh_counts = refl

initial-IsSafe_example :
    IsSafe (initial (millionths 2_000_000_000) (millionths 40_000_000) false buck_config)
initial-IsSafe_example =
    initial-IsSafe (millionths 2_000_000_000) (millionths 40_000_000) false buck_config 318
      (omega arith) refresh_counts (omega arith)

drv_commit-registers_example :
    let r' = registers (drv_commit false true true ledc) idle in
    (r'.ctrl_off ≡ 1500) × (r'.rect_off ≡ 2000) × (r'.rect_on ≡ 1500)
drv_commit-registers_example = drv_commit-registers false true true ledc idle (omega arith)

large_decrease_NeverOverlaps_example : NeverOverlaps false (legacy_large_decrease ledc) running
large_decrease_NeverOverlaps_example =
    large_decrease_NeverOverlaps ledc running refl (inr (inr (omega arith)))

small_move_overlaps_example :
    ¬ NeverOverlaps false (drv_commit false false true ledc).writes running
small_move_overlaps_example =
    small_move_overlaps true ledc running refl refl refl refl refl (omega arith) (omega arith)
      (omega arith)

-- With 26 V from 40 V at 0.2 A the converter is in DCM, and the limit of 752 counts is above 500.
dcm_limit :
    let c' =
      (update_sync_rect_max_duty
        (millionths 40_000_000)
        (millionths 26_000_000)
        (millionths 200_000)
        buck).0 in
    (c'.dcm_hysteresis ≡ true) × (c'.pwm_rect ≡ 500)
unfolding update_sync_rect_max_duty compute_sync_rect_ratio compute_dcm conv_ratio_wce
    rect_ctrl_ratio ripple_current compute_pwm_rect_max drv_commit_ls_off
dcm_limit = (refl, refl)

full_duty_overruns_example :
    let c' = pwm_perturb (pos 5) boost in (c'.pwm_ctrl ≡ 4069) × (4069 < c'.pwm_ctrl + c'.pwm_rect)
full_duty_overruns_example =
    full_duty_overruns 5 boost refl refl (omega arith) (omega arith) (omega arith) refl refl
      (omega arith) refl

-- 160 MHz and 39 kHz: no prescaler, 4103 ticks.
timing_39khz :
    best_timing 39_000 160_000_000
    ≡ some (record { resolution_hz = 160_000_000; period_ticks = 4103; actual_freq = 38_995 })
unfolding best_timing find_prescaler
timing_39khz = refl

-- 160 MHz over 1 kHz need the prescaler 3.
best_timing_lem_example :
    (t : PwmTiming) × (p : ℕ) × (best_timing 1000 160_000_000 ≡ some t)
    × (0 < p)
    × (t.resolution_hz ≡ 160_000_000 / p)
    × (t.resolution_hz / 1000 ≤ 65535)
    × ((q : ℕ) → 1 ≤ q → q < p → 65535 < 160_000_000 / q / 1000)
    × (t.period_ticks ≡ (t.resolution_hz + 1000 / 2) / 1000)
    × (0 < t.period_ticks)
    × (t.period_ticks ≤ 65536)
best_timing_lem_example = best_timing_lem 1000 160_000_000 (omega arith) (omega arith) (omega arith)

-- A frequency of 0 divides by zero, and one above twice the clock leaves no tick.
timing_traps : (best_timing 0 160_000_000 ≡ none) × (best_timing 400 100 ≡ none)
unfolding best_timing find_prescaler
timing_traps = (refl, refl)
