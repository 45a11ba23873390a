-- ===== src/RealTime/Pass.antt =====
-- A pass of `loopRT` of src/main.cpp behind `adcSampler.update()`: the failed calibration, the watchdog
-- of the ADC, the passes without new samples, and `loopRTNewData`. The loop lag, which is only shown, is
-- left out.
use fugu_mppt_firmware.Prelude.{
  ℕ, ◌+◌, ◌/◌, ◌>>=◌, Bool, true, false, ◌&&◌, ◌||◌, ltb, ◌==◌, if◌then◌else◌, Option, some, List,
  [], ◌∷◌,
}
use fugu_mppt_firmware.Float.{Float}
use fugu_mppt_firmware.Converter.{disabled}
use fugu_mppt_firmware.Sampler.Calibrating.{
  UpdateRet, is_calibrating, cancel_calibration, calib_failure, no_new_data, new_data, calibrating,
  adc_error,
}
use fugu_mppt_firmware.Mppt.Backoff.{
  in_backoff, disable_converter, board_power_supply_under_voltage,
}
use fugu_mppt_firmware.RealTime.{RealTime, Input, receive, stop_and_backoff, loop_rt_new_data}
use fugu_mppt_firmware.RealTime.Stall.{Stall, StallPass, adc_stalled, watch_stall, is_new_data}

pub record Loop (F : Type 0) : Type 0 where
  pub rt : RealTime F
  pub stall : Stall
  -- the calls of `resetPeripherals`
  pub adc_resets : ℕ

-- A pass goes on to the next one, or it calls `systemRestart`.
pub data Turned (F : Type 0) : Type 0 where
  goes_on restarts : Loop F → Turned F

abbrev pub is_calib_failure : UpdateRet → Bool
is_calib_failure calib_failure = true
is_calib_failure no_new_data = false
is_calib_failure new_data = false
is_calib_failure calibrating = false
is_calib_failure adc_error = false

module _ {F : Type 0} where
  abbrev pub loop_of : Turned F → Loop F
  loop_of (goes_on l) = l
  loop_of (restarts l) = l

  abbrev pub with_rt : RealTime F → Loop F → Loop F
  with_rt r l = record l { rt = r }

  abbrev pub after_calibration : (now : ℕ) → UpdateRet → RealTime F → RealTime F
  after_calibration now ret r = if is_calib_failure ret then stop_and_backoff now 4 r else r

module _ {F : Type 0} ⦃fl : Float F⦄ where
  abbrev pub stall_pass : (now : ℕ) → UpdateRet → RealTime F → StallPass
  stall_pass now ret r = record {
    at = now / 1000;
    stalled = adc_stalled now ret (is_calibrating r.mppt.sampler) r.time_last_sampler;
    off = disabled r.mppt.converter || in_backoff now r.mppt;
  }

  unfoldable pub watch : (now : ℕ) → UpdateRet → Loop F → Loop F × Bool
  watch now ret l =
      let (stall, alarm) = watch_stall (stall_pass now ret l.rt) l.stall in
      (
        record {
          rt = if alarm.stops then stop_and_backoff now 16 l.rt else l.rt;
          stall = stall;
          adc_resets = if alarm.resets then l.adc_resets + 1 else l.adc_resets;
        },
        alarm.restarts,
      )

  abbrev pub without_calibration : RealTime F → RealTime F
  without_calibration r = record r {
    mppt = record (r.mppt) { sampler = cancel_calibration r.mppt.sampler };
  }

  -- A calibration is cancelled where the board's supply is too low.
  abbrev pub supply_check : RealTime F → RealTime F
  supply_check r =
      if is_calibrating r.mppt.sampler && board_power_supply_under_voltage false r.mppt
      then without_calibration r
      else r

  -- 20 seconds without any sample disable the converter, a quarter of an hour restarts the system.
  unfoldable pub without_data : (now : ℕ) → Loop F → Turned F
  without_data now l =
      let r = supply_check l.rt in
      if (r.time_last_sampler == 0) && ltb 20_000 (now / 1000)
      then (let l' = with_rt (record r { mppt = disable_converter r.mppt }) l in
          if ltb 900_000 (now / 1000) then restarts l' else goes_on l')
      else goes_on (with_rt r l)

  abbrev pub finish : (now timer : ℕ) → UpdateRet → Loop F × Bool → Option (Turned F)
  finish now timer ret (l, true) = some (restarts l)
  finish now timer ret (l, false) =
      if is_new_data ret
      then (loop_rt_new_data now timer l.rt >>= (λ r. some (goes_on (with_rt r l))))
      else some (without_data now l)

  -- `none` is an exception or a failed assertion.
  unfoldable pub pass : (halted : Bool) → UpdateRet → Input F → Loop F → Option (Turned F)
  pass halted ret x l0 =
      let l = with_rt (receive x l0.rt) l0 in
      if halted
      then some (goes_on l)
      else finish x.now x.timer ret (watch x.now ret (with_rt (after_calibration x.now ret l.rt) l))

  abbrev pub continue_with : (Loop F → Option (Turned F)) → Turned F → Option (Turned F)
  continue_with next (goes_on l) = next l
  continue_with next (restarts l) = some (restarts l)

  -- The passes of the loop, up to a restart or an exception; of each whether the sampler is halted, its
  -- result and the input.
  unfoldable pub run_passes : List (Bool × UpdateRet × Input F) → Loop F → Option (Turned F)
  run_passes [] l = some (goes_on l)
  run_passes ((halted, ret, x) ∷ ps) l = pass halted ret x l >>= continue_with (run_passes ps)
