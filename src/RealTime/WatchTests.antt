-- ===== src/RealTime/WatchTests.antt =====
-- The watchdogs of src/main.cpp at concrete passes.
use fugu_mppt_firmware.Prelude.{
  ◌-◌, ◌≤◌, ◌<◌, ◌≡◌, refl, Bool, true, false, Option, none, some, List, [], ◌∷◌, arith, ℕ, map,
}
use fugu_mppt_firmware.Float.Fixed.{Fixed, fixed_float}
use fugu_mppt_firmware.Converter.{disabled}
use fugu_mppt_firmware.Converter.Bounds.{IsSafe}
use fugu_mppt_firmware.Converter.Calls.{call, calls}
use fugu_mppt_firmware.Converter.Tests.{buck-IsSafe}
use fugu_mppt_firmware.Sampler.Calibrating.{UpdateRet, is_calibrating, adc_error, no_new_data}
use fugu_mppt_firmware.Mppt.Backoff.{in_backoff, shutdown_dcdc, arm_backoff, power_off}
use fugu_mppt_firmware.RealTime.{Input, receive, stop_and_backoff}
use fugu_mppt_firmware.RealTime.Tests.{loop_state, input}
use fugu_mppt_firmware.RealTime.Watch.{elapsed, IsSince}
use fugu_mppt_firmware.RealTime.Stall.{
  Stall, StallPass, adc_stalled, watch_stall, stall_at, passes, sight, stop_needs_stall,
  lasting_stall_stops,
}
use fugu_mppt_firmware.RealTime.Pass.{
  Loop, Turned, goes_on, loop_of, watch, pass, run_passes, without_data,
}
use fugu_mppt_firmware.RealTime.Stopping.{run_passes-IsSafe, Stands, stalled_pass_stops}
use fugu_mppt_firmware.RealTime.SlowLoop.{count_window, Look, watch_stuck, Slow, SlowInput}
use fugu_mppt_firmware.RealTime.Starving.{
  count_at, count_window-streak, stuck_at, stuck_sight, reboot_needs_stuck,
}

abbrev stalled_at : ℕ → StallPass
stalled_at t = record { at = t; stalled = true; off = false }

stop_needs_stall_example :
    (false ≡ false)
    × ((t : ℕ) × (800 < elapsed 2_000 t)
        × IsSince t (map sight (stalled_at 2_000 ∷ stalled_at 1_000 ∷ [])))
unfolding watch_stall stall_at
stop_needs_stall_example = stop_needs_stall (stalled_at 2_000) (stalled_at 1_000 ∷ []) refl

abbrev no_stall : Stall
no_stall = record { since = 0; last_reset = 0 }

lasting_stall_stops_example :
    let alarm =
      (watch_stall
        (stalled_at 2_000)
        (passes (stalled_at 1_500 ∷ []) (watch_stall (stalled_at 1_000) no_stall).0)).1 in
    (alarm.stops ≡ true) × (alarm.restarts ≡ false)
lasting_stall_stops_example =
    lasting_stall_stops (stalled_at 1_000) (stalled_at 2_000) (stalled_at 1_500 ∷ []) no_stall refl
      (omega arith) refl (refl, _) refl

abbrev stalled_loop : Loop Fixed
stalled_loop = record {
  rt = loop_state;
  stall = record { since = 2_000; last_reset = 2_900 };
  adc_resets = 1;
}

stalled_pass_stops_example :
    (t : Turned Fixed) × (pass false adc_error input stalled_loop ≡ some t)
    × Stands 3_000_000 (loop_of t).rt
unfolding adc_stalled
stalled_pass_stops_example =
    stalled_pass_stops adc_error input stalled_loop (omega arith) refl refl refl (omega arith)

-- The pass that stops the converter, and one that finds it off.
abbrev two_passes : List (Bool × UpdateRet × Input Fixed)
two_passes = (false, adc_error, input) ∷ (false, no_new_data, input) ∷ []

abbrev caught_turn : Option (Turned Fixed) → Turned Fixed
caught_turn none = goes_on stalled_loop
caught_turn (some t) = t

run_passes-IsSafe_example :
    IsSafe (loop_of (caught_turn (run_passes two_passes stalled_loop))).rt.mppt.converter
unfolding run_passes pass watch watch_stall adc_stalled without_data is_calibrating disabled receive
    in_backoff stop_and_backoff shutdown_dcdc arm_backoff power_off calls call
run_passes-IsSafe_example =
    run_passes-IsSafe two_passes stalled_loop (caught_turn (run_passes two_passes stalled_loop))
      buck-IsSafe refl

count_window-streak_example : (count_window true (count_at (true ∷ true ∷ false ∷ []))).1 ≡ true
count_window-streak_example = count_window-streak true (true ∷ true ∷ false ∷ [])

abbrev look_at : ℕ → Look
look_at t = record { at = t; stuck = true; changed = false }

abbrev looks : List Look
looks = look_at 100_000_000 ∷ look_at 60_000_000 ∷ look_at 1_000_000 ∷ []

reboot_needs_stuck_example :
    ((stuck_at (look_at 7_300_000_000 ∷ looks)).tried ≡ true)
    × ((t : ℕ) × (7_200_000_000 ≤ 7_300_000_000 - t)
        × IsSince t (map stuck_sight (look_at 7_300_000_000 ∷ looks)))
unfolding watch_stuck stuck_at
reboot_needs_stuck_example = reboot_needs_stuck (look_at 7_300_000_000) looks refl

abbrev slow_input : SlowInput
slow_input = record {
  now = 6_000_000;
  timer = 6_000_000;
  last_time_out = 3_000_000;
  loop_rate_min = 100;
}

abbrev slow : Slow
slow = record {
  last_window = 3_000_000;
  last_sps = 200;
  last_num_samples = 90;
  starved_windows = 2;
  stuck = record { since = 0; tried = false };
}
