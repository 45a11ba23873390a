-- ===== src/RealTime/SlowLoop.antt =====
-- `loopLF` of src/main.cpp: the watchdog of the sample rate, that of a converter which is stuck at its
-- floor, and the slow reads of the control. The status line, the LED, the confirmation of a new image
-- and the daily meter's update are left out.
use fugu_mppt_firmware.Prelude.{
  ℕ, ◌+◌, ◌-◌, ◌*◌, ◌/◌, max, Bool, true, false, ◌&&◌, ◌||◌, not, ltb, leb, ◌==◌, u8, u16, u32, u64,
  if◌then◌else◌,
}
use fugu_mppt_firmware.Float.{Float}
use fugu_mppt_firmware.Converter.{disabled}
use fugu_mppt_firmware.Charger.Pinning
use fugu_mppt_firmware.Mppt.{Mppt, avg}
use fugu_mppt_firmware.Mppt.Backoff.{release_cv_floor_latch}
use fugu_mppt_firmware.RealTime.{RealTime, stop_and_backoff}
use fugu_mppt_firmware.RealTime.Watch.{elapsed}

-- `lfStuckWatchdog`'s `stuckSinceUs`, 0 if it is not stuck, and `triedRelease`.
pub record Stuck : Type 0 where
  pub since : ℕ
  pub tried : Bool

-- The static variables of the slow loop.
pub record Slow : Type 0 where
  pub last_window : ℕ
  pub last_sps : ℕ  -- uint32_t
  pub last_num_samples : ℕ  -- uint32_t
  pub starved_windows : ℕ  -- uint8_t
  pub stuck : Stuck

-- What a call of the slow loop reads: the clock, the esp timer, the time of the last output, and the
-- configured least loop rate.
pub record SlowInput : Type 0 where
  pub now : ℕ
  pub timer : ℕ
  pub last_time_out : ℕ
  pub loop_rate_min : ℕ  -- uint16_t

-- `TRIP_WINDOWS`
abbrev pub trip_windows : ℕ
trip_windows = 3

-- The count of the starved windows in a row, and whether the watchdog trips.
unfoldable pub count_window : (starved : Bool) → ℕ → ℕ × Bool
count_window starved n =
    if not starved
    then (0, false)
    else if ltb (u8 (n + 1)) trip_windows
    then (u8 (n + 1), false)
    else (0, true)

-- A look at the converter; `changed` is what `releaseCvFloorLatch` gives if it is called.
pub record Look : Type 0 where
  pub at : ℕ
  pub stuck : Bool
  pub changed : Bool

pub record StuckAlarm : Type 0 where
  pub releases : Bool
  pub reboots : Bool

unfoldable pub watch_stuck : Look → Stuck → Stuck × StuckAlarm
watch_stuck x s =
    if not x.stuck
    then (record { since = 0; tried = false }, record { releases = false; reboots = false })
    else if s.since == 0
    then (record s { since = x.at }, record { releases = false; reboots = false })
    else (let for = x.at - s.since in
        let releases = not s.tried && leb 30_000_000 for in
        (
          record s { tried = s.tried || releases },
          record {
            releases = releases;
            reboots = not (releases && x.changed) && leb 7_200_000_000 for;
          },
        ))

-- The rate over a window of at least 20 ms.
unfoldable pub window_sps : (dt num_samples : ℕ) → Slow → ℕ
window_sps dt num_samples s =
    if ltb 20_000 dt
    then u32 (u64 (u32 (num_samples + 4294967296 - s.last_num_samples) * 1_000_000) / dt)
    else s.last_sps

module _ {F : Type 0} ⦃fl : Float F⦄ where
  open fl use {add, lt, fabs, is_finite, dec}

  -- `starved`. The float 3000000 * 0.9 is 2700000.
  unfoldable pub starved : SlowInput → (dt sps num_samples : ℕ) → RealTime F → Bool
  starved x dt sps num_samples r =
      ltb 2_700_000 dt
      && ltb sps x.loop_rate_min
      && not (disabled r.mppt.converter)
      && ltb (max (x.loop_rate_min * 5) 200) num_samples
      && not r.manual_pwm
      && not (x.last_time_out == 0)
      && ltb 2_000_000 (elapsed x.now r.mppt.sampler.time_last_calibration)

  -- `lfWatchdog`
  unfoldable pub lf_watchdog :
      SlowInput → (dt sps num_samples : ℕ) → Slow → RealTime F → Slow × RealTime F
  lf_watchdog x dt sps num_samples s r =
      let (n, trips) = count_window (starved x dt sps num_samples r) s.starved_windows in
      (record s { starved_windows = n }, if trips then stop_and_backoff x.now 4 r else r)

  -- Near-zero output despite an input well above the output.
  unfoldable pub is_stuck : RealTime F → Bool
  is_stuck r =
      lt (add (avg r.mppt.sampler.vout) (dec 8 0)) (avg r.mppt.sampler.vin)
      && lt (fabs (avg r.mppt.sampler.iout)) (dec 3 1)
      && not r.manual_pwm
      && not r.mppt.charger.term_cond.terminated

  abbrev pub look : (timer : ℕ) → RealTime F → Look
  look timer r = record {
    at = timer;
    stuck = is_stuck r;
    changed = (release_cv_floor_latch r.mppt).1;
  }

  -- `lfStuckWatchdog`. The value is whether it restarts the system.
  unfoldable pub lf_stuck_watchdog : (timer : ℕ) → Slow → RealTime F → Slow × RealTime F × Bool
  lf_stuck_watchdog timer s r =
      let (stuck, alarm) = watch_stuck (look timer r) s.stuck in
      (
        record s { stuck = stuck },
        (if alarm.releases then record r { mppt = (release_cv_floor_latch r.mppt).0 } else r),
        alarm.reboots,
      )

  -- The converter drives the output itself: its duty is above the floor and a current flows.
  unfoldable pub vout_authority : Mppt F → Bool
  vout_authority m =
      let iout = avg m.sampler.iout in
      let c = m.converter in
      let margin = max (c.config.pwm_ctrl_max / 256) 8 in
      let shows = is_finite iout && (lt (dec 5 1) iout || m.charger.term_cond.terminated) in
      not (disabled c) && ltb (u16 (c.config.pwm_ctrl_min + margin)) c.pwm_ctrl && shows

  -- `lfControl`; what the temperature sensors read is part of the input of the real-time loop.
  unfoldable pub lf_control : (now : ℕ) → RealTime F → RealTime F
  lf_control now r =
      let m = r.mppt in
      record r {
        mppt = record m {
          charger = Pinning.update now (avg m.sampler.vout) (vout_authority m) m.charger;
        };
      }

  -- `loopLF`. A call for an interim status line reads only.
  unfoldable pub loop_lf :
      SlowInput → (interim : Bool) → Slow → RealTime F → Slow × RealTime F × Bool
  loop_lf x interim s r =
      if interim
      then (s, r, false)
      else (let num_samples = r.mppt.sampler.vout.num_samples in
          let dt = elapsed x.now s.last_window in
          let sps = window_sps dt num_samples s in
          let (s1, r1) = lf_watchdog x (u32 dt) sps num_samples (record s { last_sps = sps }) r in
          let (s2, r2, reboots) = lf_stuck_watchdog x.timer s1 r1 in
          if reboots then (s2, r2, true) else (
            record s2 { last_num_samples = num_samples; last_window = x.now },
            lf_control x.now r2,
            false,
          ))
