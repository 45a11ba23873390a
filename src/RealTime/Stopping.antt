-- ===== src/RealTime/Stopping.antt =====
-- Every pass of `loopRT` of src/main.cpp keeps the converter in its bounds, and a lasting stall of the
-- ADC stops it.
use fugu_mppt_firmware.Prelude.{
  ℕ, ◌<◌, ◌/◌, ◌≡◌, ◌⊎◌, inl, inr, refl, ◌∙◌, Bool, true, false, ◌&&◌, ◌||◌, ltb, ◌==◌, Option,
  some, List, [], ◌∷◌, arith, Bool-cases, if_cases,
}
use fugu_mppt_firmware.Float.{Float}
use fugu_mppt_firmware.Converter.{disabled}
use fugu_mppt_firmware.Converter.Bounds.{IsSafe}
use fugu_mppt_firmware.Converter.Perturb.{disable}
use fugu_mppt_firmware.Converter.Safety.{disable-IsSafe}
use fugu_mppt_firmware.Sampler.Calibrating.{UpdateRet, is_calibrating}
use fugu_mppt_firmware.Mppt.Backoff.{
  in_backoff, disable_converter, board_power_supply_under_voltage,
}
use fugu_mppt_firmware.Mppt.Guarded.{Fits, shutdown_dcdc-IsOff}
use fugu_mppt_firmware.Mppt.Steering.{Always, some-Always, if-Always, bind-Always}
use fugu_mppt_firmware.RealTime.{RealTime, Input, receive, stop_and_backoff, loop_rt_new_data}
use fugu_mppt_firmware.RealTime.Invariant.{
  LoopSafe, if-LoopSafe, stop_and_backoff-LoopSafe, receive-LoopSafe, loop_rt_new_data-Always,
}
use fugu_mppt_firmware.RealTime.Stall.{watch_stall, stall_start, watch-since, is_new_data}
use fugu_mppt_firmware.RealTime.Watch.{elapsed}
use fugu_mppt_firmware.RealTime.Pass.{
  Loop, Turned, goes_on, restarts, loop_of, with_rt, after_calibration, stall_pass, watch,
  supply_check, without_calibration, without_data, finish, pass, continue_with, run_passes,
}

module _ {F : Type 0} ⦃fl : Float F⦄ where
  -- The invariant after a pass.
  record TurnSafe (t : Turned F) : Type 0 where
    turn_safe : LoopSafe (loop_of t).rt

  supply_check-LoopSafe : (r : RealTime F) → LoopSafe r → LoopSafe (supply_check r)
  supply_check-LoopSafe r s =
      if-LoopSafe _ (without_calibration r) r
        (record { converter_safe = record { safe = s.converter_safe.safe } }) s

  without_data-TurnSafe : (now : ℕ) (l : Loop F) → LoopSafe l.rt → TurnSafe (without_data now l)
  unfolding without_data
  without_data-TurnSafe now l s =
      let r = supply_check l.rt in
      let safe = supply_check-LoopSafe l.rt s in
      let off : LoopSafe (record r { mppt = disable_converter r.mppt }) = record {
        converter_safe = record { safe = disable-IsSafe r.mppt.converter safe.converter_safe.safe };
      } in
      if_cases TurnSafe ((r.time_last_sampler == 0) && ltb 20_000 (now / 1000))
        (λ _.
          if_cases TurnSafe (ltb 900_000 (now / 1000)) (λ _. record { turn_safe = off })
            (λ _. record { turn_safe = off }))
        (λ _. record { turn_safe = safe })

  watch-LoopSafe :
      (now : ℕ) (ret : UpdateRet) (l : Loop F) → LoopSafe l.rt → LoopSafe (watch now ret l).0.rt
  unfolding watch
  watch-LoopSafe now ret l s =
      if-LoopSafe _ (stop_and_backoff now 16 l.rt) l.rt
        (stop_and_backoff-LoopSafe now 16 l.rt s.converter_safe) s

  finish-Always :
      (now timer : ℕ) (ret : UpdateRet) (w : Loop F × Bool)
      → LoopSafe w.0.rt
      → Always TurnSafe (finish now timer ret w)
  finish-Always now timer ret (l, true) s =
      some-Always TurnSafe (restarts l) (record { turn_safe = s })
  finish-Always now timer ret (l, false) s =
      if-Always TurnSafe (is_new_data ret) _ _
        (bind-Always TurnSafe LoopSafe (loop_rt_new_data now timer l.rt) _
          (loop_rt_new_data-Always now timer l.rt s)
          (λ r q. some-Always TurnSafe _ (record { turn_safe = q })))
        (some-Always TurnSafe (without_data now l) (without_data-TurnSafe now l s))

  pass-Always :
      (halted : Bool) (ret : UpdateRet) (x : Input F) (l : Loop F)
      → LoopSafe l.rt
      → Always TurnSafe (pass halted ret x l)
  unfolding pass
  pass-Always halted ret x l s =
      let got = receive-LoopSafe x l.rt s in
      let r = after_calibration x.now ret (receive x l.rt) in
      let calibrated : LoopSafe r =
        if-LoopSafe _ (stop_and_backoff x.now 4 (receive x l.rt)) (receive x l.rt)
          (stop_and_backoff-LoopSafe x.now 4 (receive x l.rt) got.converter_safe) got in
      if-Always TurnSafe halted _ _ (some-Always TurnSafe _ (record { turn_safe = got })) (
        finish-Always x.now x.timer ret (watch x.now ret (with_rt r l))
          (watch-LoopSafe x.now ret (with_rt r l) calibrated))

  turned-Always :
      (t : Turned F) (next : Loop F → Option (Turned F))
      → TurnSafe t
      → ((l : Loop F) → LoopSafe l.rt → Always TurnSafe (next l))
      → Always TurnSafe (continue_with next t)
  turned-Always (goes_on l) next s k = k l s.turn_safe
  turned-Always (restarts l) next s k = some-Always TurnSafe (restarts l) s

  run_passes-Always :
      (ps : List (Bool × UpdateRet × Input F)) (l : Loop F)
      → LoopSafe l.rt
      → Always TurnSafe (run_passes ps l)
  unfolding run_passes
  run_passes-Always [] l s = some-Always TurnSafe (goes_on l) (record { turn_safe = s })
  run_passes-Always ((halted, ret, x) ∷ ps) l s =
      bind-Always TurnSafe TurnSafe (pass halted ret x l) (continue_with (run_passes ps))
        (pass-Always halted ret x l s)
        (λ t q. turned-Always t (run_passes ps) q (run_passes-Always ps))

  -- Whatever the sampler, the charger, the user and the console bring, which may call the converter's
  -- methods between two passes: if the converter is in its bounds at the start, it is in them after any
  -- number of passes of the real-time loop, also of those that a failed calibration, a stall of the ADC or
  -- missing samples stop, up to a restart, where no pass throws an exception or fails an assertion. In its
  -- bounds, the ctrl on-time is at most its limit; with a bootstrap refresh the two on-times share the PWM
  -- period; and below the largest ctrl on-time they stay short of it in either topology. (A boost
  -- converter, which has no refresh, may overrun the period at the largest ctrl on-time.)
  pub run_passes-IsSafe :
      (ps : List (Bool × UpdateRet × Input F)) (l : Loop F) (t : Turned F)
      → IsSafe l.rt.mppt.converter
      → run_passes ps l ≡ some t
      → IsSafe (loop_of t).rt.mppt.converter
  run_passes-IsSafe ps l t s e =
      let always = run_passes-Always ps l (record { converter_safe = record { safe = s } }) in
      (always.holds t e).turn_safe.converter_safe.safe

  -- What a stop leaves, and every pass keeps.
  abbrev pub Stands : ℕ → RealTime F → Type 0
  Stands now r = (disabled r.mppt.converter ≡ true) ⊎ (in_backoff now r.mppt ≡ true)

  stop-Stands : (now : ℕ) (r : RealTime F) → Fits now → Stands now (stop_and_backoff now 16 r)
  unfolding stop_and_backoff
  stop-Stands now r w =
      inl (shutdown_dcdc-IsOff now 5 r.mppt (omega arith) (omega (arith, w))).converter_off

  off-Stands :
      (now : ℕ) (r : RealTime F) → Stands now (record r { mppt = disable_converter r.mppt })
  unfolding disabled disable
  off-Stands now r = inl (ground arith)

  supply_check-Stands : (now : ℕ) (r : RealTime F) → Stands now r → Stands now (supply_check r)
  unfolding in_backoff
  supply_check-Stands now r s =
      if_cases (Stands now)
        (is_calibrating r.mppt.sampler && board_power_supply_under_voltage false r.mppt) (λ _. s)
        (λ _. s)

  without_data-Stands :
      (now : ℕ) (l : Loop F) → Stands now l.rt → Stands now (loop_of (without_data now l)).rt
  unfolding without_data
  without_data-Stands now l s =
      let r = supply_check l.rt in
      if_cases (λ (t : Turned F). Stands now (loop_of t).rt)
        ((r.time_last_sampler == 0) && ltb 20_000 (now / 1000))
        (λ _.
          if_cases (λ (t : Turned F). Stands now (loop_of t).rt) (ltb 900_000 (now / 1000))
            (λ _. off-Stands now r) (λ _. off-Stands now r))
        (λ _. supply_check-Stands now l.rt s)

  -- The state that the watchdog of a pass finds.
  abbrev pub entering : UpdateRet → Input F → Loop F → RealTime F
  entering ret x l = after_calibration x.now ret (receive x l.rt)

  abbrev pub is_stalled : UpdateRet → Input F → Loop F → Bool
  is_stalled ret x l = (stall_pass x.now ret (entering ret x l)).stalled

  already-Stands :
      (now : ℕ) (r : RealTime F)
      → (disabled r.mppt.converter || in_backoff now r.mppt) ≡ true
      → Stands now r
  already-Stands now r h = ground arith

  lasting-stops :
      (now : ℕ) (ret : UpdateRet) (l : Loop F)
      → (stall_pass now ret l.rt).stalled ≡ true
      → (l.stall.since == 0) ≡ false
      → 800 < elapsed (now / 1000) l.stall.since
      → (disabled l.rt.mppt.converter || in_backoff now l.rt.mppt) ≡ false
      → (watch_stall (stall_pass now ret l.rt) l.stall).1.stops ≡ true
  lasting-stops now ret l h n long on =
      let x = stall_pass now ret l.rt in
      let kept : stall_start x l.stall ≡ l.stall.since = rw n refl in
      (watch-since x l.stall h).1 ∙ (rw (kept, on) (ground arith))

  watch-Stands :
      (now : ℕ) (ret : UpdateRet) (l : Loop F)
      → Fits now
      → (stall_pass now ret l.rt).stalled ≡ true
      → (l.stall.since == 0) ≡ false
      → 800 < elapsed (now / 1000) l.stall.since
      → Stands now (watch now ret l).0.rt
  unfolding watch
  watch-Stands now ret l w h n long =
      if_cases (Stands now) (watch_stall (stall_pass now ret l.rt) l.stall).1.stops
        (λ _. stop-Stands now l.rt w)
        (λ goes. elim (Bool-cases (disabled l.rt.mppt.converter || in_backoff now l.rt.mppt)) [
          | inl off ↦ already-Stands now l.rt off
          | inr on ↦ absurd (ground (arith, lasting-stops now ret l h n long on, goes))
        ])

  finish-Stands :
      (now timer : ℕ) (ret : UpdateRet) (w : Loop F × Bool)
      → is_new_data ret ≡ false
      → Stands now w.0.rt
      → (t : Turned F) × (finish now timer ret w ≡ some t) × Stands now (loop_of t).rt
  finish-Stands now timer ret (l, true) none_new s = (restarts l, refl, s)
  finish-Stands now timer ret (l, false) none_new s =
      (without_data now l, rw none_new refl, without_data-Stands now l s)

  -- A pass without new data that sees a stall of the ADC which has lasted for more than 800 ms: the pass
  -- throws no exception, and behind it the converter is off or a backoff runs. The sampler is not halted,
  -- and the clock is 30 seconds or more before its wrap.
  pub stalled_pass_stops :
      (ret : UpdateRet) (x : Input F) (l : Loop F)
      → Fits x.now
      → is_new_data ret ≡ false
      → is_stalled ret x l ≡ true
      → (l.stall.since == 0) ≡ false
      → 800 < elapsed (x.now / 1000) l.stall.since
      → (t : Turned F) × (pass false ret x l ≡ some t) × Stands x.now (loop_of t).rt
  unfolding pass
  stalled_pass_stops ret x l w none_new h n long =
      let l1 = with_rt (entering ret x l) l in
      finish-Stands x.now x.timer ret (watch x.now ret l1) none_new
        (watch-Stands x.now ret l1 w h n long)
