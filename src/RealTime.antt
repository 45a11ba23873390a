-- ===== src/RealTime.antt =====
-- The control part of the real-time loop of src/main.cpp: `loopRTNewData` and `stopAndBackoff`, which
-- call the protection, the control loops and the start of a scan.
pub mod Invariant
pub mod Watch
pub mod Stall
pub mod Pass
pub mod Stopping
pub mod Hazards
pub mod SlowLoop
pub mod Starving
pub mod WatchTests
pub mod Tests
use fugu_mppt_firmware.Prelude.{
  ℕ, ◌+◌, ◌-◌, ◌*◌, ◌≤◌, ◌<◌, ◌≡◌, ◌>>=◌, Bool, true, false, ◌&&◌, ◌||◌, not, ltb, ◌==◌, u32, u64,
  if◌then◌else◌, Option, none, some, List, [], ◌∷◌,
}
use fugu_mppt_firmware.Prelude.Int.{pos}
use fugu_mppt_firmware.Float.{Float}
use fugu_mppt_firmware.Converter.{disabled}
use fugu_mppt_firmware.Converter.Perturb.{pwm_perturb}
use fugu_mppt_firmware.Converter.Calls.{Call, calls}
use fugu_mppt_firmware.Charger.Pinning.{Charger}
use fugu_mppt_firmware.Sampler.{Sampler}
use fugu_mppt_firmware.Charger.Battery.{have_valid_cell_voltage}
use fugu_mppt_firmware.Sampler.Calibrating.{is_calibrating}
use fugu_mppt_firmware.Mppt.{Mppt}
use fugu_mppt_firmware.Mppt.Backoff.{shutdown_dcdc, start_condition}
use fugu_mppt_firmware.Mppt.Protect.{protect}
use fugu_mppt_firmware.Mppt.Slow.{protect_lf}
use fugu_mppt_firmware.Mppt.Sweeping.{start_sweep}
use fugu_mppt_firmware.Mppt.Manual.{update, update_manual}

pub record RealTime (F : Type 0) : Type 0 where
  pub mppt : Mppt F
  pub manual_pwm : Bool
  pub delay_start_until : ℕ
  pub last_num_samples : ℕ  -- uint32_t
  pub time_last_sampler : ℕ
  -- the wait for the battery's first frame after the boot
  pub bms_boot_deadline : ℕ
  pub bms_was_fresh : Bool

-- The sensors, the charger and the user, at an iteration's time.
pub record Input (F : Type 0) : Type 0 where
  pub now : ℕ
  pub timer : ℕ
  pub sampler : Sampler F
  pub charger : Charger F
  pub ntc : F
  pub uc_temp : F
  pub manual_pwm : Bool
  pub manual_target : ℕ
  -- the calls of the converter's methods that console commands have made
  pub console : List (Call F)

module _ {F : Type 0} where
  unfoldable pub stop_and_backoff : (now seconds : ℕ) → RealTime F → RealTime F
  stop_and_backoff now seconds r = record r {
    mppt = shutdown_dcdc now 5 r.mppt;
    delay_start_until = u64 (now + seconds * 1_000_000);
  }

module _ {F : Type 0} ⦃fl : Float F⦄ where
  -- `MpptController::active`
  abbrev pub active : Mppt F → Bool
  active m = m.sweeping || is_calibrating m.sampler || not (disabled m.converter)

  -- Both protections run, the second one also after a failure of the first.
  abbrev pub guard : (now : ℕ) (manual : Bool) → Mppt F → Mppt F × Bool
  guard now manual m =
      if disabled m.converter
      then (m, true)
      else (let (m1, ok1) = protect now m in
          let (m2, ok2) = protect_lf now manual m1 in (m2, ok1 && ok2))

  -- `none` is an exception or a failed assertion.
  abbrev pub run_update : (now : ℕ) (manual : Bool) → Mppt F → Option (Mppt F)
  run_update now manual m = if manual then some (update_manual now m) else update now m

  abbrev pub control : (now : ℕ) (new_sample : Bool) → RealTime F → Option (RealTime F)
  control now new_sample r =
      let (m, ok) = guard now r.manual_pwm r.mppt in
      let guarded : RealTime F = record r { mppt = m } in
      if not ok
      then some (stop_and_backoff now 4 guarded)
      else if not new_sample
      then some guarded
      else (run_update now r.manual_pwm m >>= (λ m1.
          some (record guarded { mppt = m1; last_num_samples = m1.sampler.vout.num_samples })))

  abbrev pub waiting_for_bms : (fresh : Bool) → Mppt F → Bool
  waiting_for_bms fresh m = m.charger.bms_cell_source && (not m.charger.term_decided || not fresh)

  -- The start of a scan, unless the battery is full or its first frame is waited for. `timer` is
  -- `esp_timer_get_time()`.
  unfoldable pub start_scan : (now timer : ℕ) → RealTime F → RealTime F
  start_scan now timer r =
      let fresh = have_valid_cell_voltage now r.mppt.charger.bat_st in
      let full = r.mppt.charger.term_cond.terminated && fresh in
      let waiting = waiting_for_bms fresh r.mppt in
      let kept : ℕ = if r.bms_was_fresh && not fresh then 0 else r.bms_boot_deadline in
      let deadline : ℕ = if waiting && (kept == 0) then timer + 12_000_000 else kept in
      let over = not (deadline == 0) && ltb deadline timer in
      let r1 : RealTime F = record r { bms_was_fresh = fresh; bms_boot_deadline = deadline } in
      if not full && (not waiting || over)
      then record r1 { mppt = start_sweep r.mppt; delay_start_until = u64 (now + 4_000_000) }
      else r1

  abbrev pub idle : (now timer : ℕ) → RealTime F → RealTime F
  idle now timer r =
      if ltb r.delay_start_until now && start_condition now r.mppt && not r.manual_pwm
      then start_scan now timer r
      else r

  -- In manual mode the rectifier's on-time goes on fading in.
  abbrev pub fade : RealTime F → RealTime F
  fade r =
      if r.manual_pwm && not (disabled r.mppt.converter)
      then record r { mppt = record (r.mppt) { converter = pwm_perturb (pos 0) r.mppt.converter } }
      else r

  abbrev pub dispatch : (now timer : ℕ) (new_sample : Bool) → RealTime F → Option (RealTime F)
  dispatch now timer new_sample r =
      if is_calibrating r.mppt.sampler
      then some (record r { mppt = shutdown_dcdc now 0 r.mppt })
      else if active r.mppt || r.manual_pwm
      then control now new_sample r
      else some (idle now timer r)

  abbrev pub note_sample : (now : ℕ) (new_sample : Bool) → RealTime F → RealTime F
  note_sample now new_sample r = record r {
    time_last_sampler = if new_sample then now else r.time_last_sampler;
  }

  abbrev pub has_new_sample : RealTime F → Bool
  has_new_sample r = ltb 0 (u32 (r.mppt.sampler.vout.num_samples + 4294967296 - r.last_num_samples))

  unfoldable pub loop_rt_new_data : (now timer : ℕ) → RealTime F → Option (RealTime F)
  loop_rt_new_data now timer r =
      dispatch now timer (has_new_sample r) (note_sample now (has_new_sample r) r)
      >>= (λ r1. some (fade r1))

  -- What the other tasks have brought since the last iteration.
  unfoldable pub receive : Input F → RealTime F → RealTime F
  receive x r = record r {
    manual_pwm = x.manual_pwm;
    mppt = record (r.mppt) {
      sampler = x.sampler;
      charger = x.charger;
      ntc = x.ntc;
      uc_temp = x.uc_temp;
      manual_target = x.manual_target;
      converter = calls x.console r.mppt.converter;
    };
  }

  -- The iterations of the loop, up to an exception.
  unfoldable pub iterate : List (Input F) → RealTime F → Option (RealTime F)
  iterate [] r = some r
  iterate (x ∷ xs) r = loop_rt_new_data x.now x.timer (receive x r) >>= iterate xs
