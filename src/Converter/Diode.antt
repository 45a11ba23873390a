-- ===== src/Converter/Diode.antt =====
-- Diode emulation in `SynchronousConverter` (src/buck.h): what the rectifier's limit does to the
-- committed on-time, and where the limit is lost.
use fugu_mppt_firmware.Prelude.{
  ℕ, ◌+◌, ◌≤◌, ◌<◌, ◌≡◌, ◌⊎◌, inl, inr, refl, Bool, true, false, not, arith, if◌then◌else◌,
  Bool-cases, ap, sym, ◌∙◌, ◌&&◌, ◌||◌,
}
use fugu_mppt_firmware.Prelude.Int.{ℤ, pos, ltb_ℤ, constrain}
use fugu_mppt_firmware.Float.{Float}
use fugu_mppt_firmware.Converter.{Converter, Config, has_pin_sd, manual_rect_}
use fugu_mppt_firmware.Converter.Driver.{drv_commit_ls_off}
use fugu_mppt_firmware.Converter.Rect.{
  compute_pwm_rect_max, compute_dcm, compute_sync_rect_ratio, clamp_rect, update_sync_rect_max_duty,
  sync_rect_min_duty, enable_sync_rect, ripple_current,
}
use fugu_mppt_firmware.Converter.Perturb.{
  pwm_perturb, update_rect, start_move, is_enabling, is_larger_decrease, fade_in,
}
use fugu_mppt_firmware.Converter.Bounds.{drv_commit-writes}

module _ {F : Type 0} where
  -- `enableSyncRect(false)` takes the rectifier down to its minimum, unless forced PWM keeps it; the
  -- ctrl on-time is as before, and so is the rectifier's where it is enabled.
  pub enable_sync_rect_lem :
      (enable overwrite : Bool) (c : Converter F)
      → let c' = enable_sync_rect enable overwrite c in
        (c'.pwm_ctrl ≡ c.pwm_ctrl)
        × ((c'.sync_rect_enabled ≡ false) ⊎ (c'.pwm_rect ≡ c.pwm_rect))
        × ((c'.sync_rect_enabled ≡ true) ⊎ (c'.pwm_rect ≤ c.config.pwm_rect_min))
        × ((c'.sync_rect_enabled ≡ false)
            ⊎ ((enable ≡ true) ⊎ ((c.forced_pwm ≡ true) × (overwrite ≡ false))))
  unfolding enable_sync_rect sync_rect_min_duty drv_commit_ls_off
  enable_sync_rect_lem enable overwrite c = ground arith

module _ {F : Type 0} ⦃fl : Float F⦄ where
  open fl use {lt, mul, dec}

  -- The mode that `computeDCM` chooses. Forced PWM is never DCM. Else it is DCM when the dc current is
  -- below 0.1 A or the ripple exceeds twice the dc current, 1.8 times if it was DCM before.
  pub compute_dcm_lem :
      (vh vl il : F) (c : Converter F)
      → let (c', dcm) = compute_dcm vh vl il c in
        (c'.dcm_hysteresis ≡ dcm)
        × (dcm ≡ (
            not c.forced_pwm
            && (lt il (dec 1 1)
                || lt
                    (mul il (if c.dcm_hysteresis then dec 18 1 else dec 20 1))
                    (ripple_current c vh vl))))
  unfolding compute_dcm
  compute_dcm_lem vh vl il c = ground arith

  compute_pwm_rect_max-writes :
      (c : Converter F)
      → ((compute_pwm_rect_max c).writes ≡ c.writes)
        × ((compute_pwm_rect_max c).pwm_rect ≡ c.pwm_rect)
  unfolding compute_pwm_rect_max
  compute_pwm_rect_max-writes c = ground arith

  compute_sync_rect_ratio-writes :
      (vh vl il : F) (c : Converter F)
      → let c' = compute_sync_rect_ratio vh vl il c in
        (c'.writes ≡ c.writes) × (c'.pwm_rect ≡ c.pwm_rect) × (c'.manual_rect ≡ c.manual_rect)
  unfolding compute_sync_rect_ratio compute_dcm
  compute_sync_rect_ratio-writes vh vl il c = ground arith

  clamp_rect_lem :
      (c : Converter F)
      → let c' = clamp_rect c in
        (c'.pwm_rect ≤ c.pwm_rect)
        × (c'.pwm_rect ≤ c'.pwm_rect_max)
        × ((c'.pwm_rect < c.pwm_rect) ⊎ ((c'.writes ≡ c.writes) × (c'.pwm_rect ≡ c.pwm_rect)))
  unfolding drv_commit_ls_off
  clamp_rect_lem c = ground arith

  -- `updateSyncRectMaxDuty` only ever shortens the rectifier's on-time. Without the bench override
  -- the on-time then meets the new limit, and nothing is written unless it was shortened; with the
  -- override on-time and writes stay.
  pub update_sync_rect_max_duty_lem :
      (vin vout il : F) (c : Converter F)
      → let c' = (update_sync_rect_max_duty vin vout il c).0 in
        (c'.pwm_rect ≤ c.pwm_rect)
        × ((manual_rect_ c ≡ true) ⊎ (c'.pwm_rect ≤ c'.pwm_rect_max))
        × ((c'.pwm_rect < c.pwm_rect) ⊎ ((c'.writes ≡ c.writes) × (c'.pwm_rect ≡ c.pwm_rect)))
        × ((manual_rect_ c ≡ false) ⊎ (c'.pwm_rect ≡ c.pwm_rect))
  unfolding update_sync_rect_max_duty
  update_sync_rect_max_duty_lem vin vout il c =
      let vh : F = if c.config.is_boost then vout else vin in
      let vl : F = if c.config.is_boost then vin else vout in
      let c1 = compute_sync_rect_ratio vh vl il c in
      ground (
        arith,
        compute_sync_rect_ratio-writes vh vl il c,
        compute_pwm_rect_max-writes c1,
        clamp_rect_lem (compute_pwm_rect_max c1),
      )

  update_rect-larger :
      (c : Converter F)
      → c.forced_pwm ≡ false
      → manual_rect_ c ≡ false
      → let c' = update_rect true c in
        (c'.dcm_hysteresis ≡ true) × (c'.pwm_rect ≡ c.config.pwm_rect_min)
  unfolding update_rect compute_pwm_rect_max
  update_rect-larger c f m = rw (m, f) (ground arith)

  start_move-modes :
      (direction : ℤ) (c : Converter F)
      → let c' = start_move direction c in
        (c'.forced_pwm ≡ c.forced_pwm) × (c'.manual_rect ≡ c.manual_rect) × (c'.config ≡ c.config)
  unfolding start_move
  start_move-modes direction c = elim (Bool-cases (is_enabling c direction && has_pin_sd c)) [
    | inl e ↦ rw e (refl, refl, refl)
    | inr e ↦ rw e (refl, refl, refl)
  ]

  -- A large decrease, without forced PWM and the bench override, assumes DCM and takes the rectifier
  -- to its minimum.
  pub large_decrease_resets_rect :
      (direction : ℤ) (c : Converter F)
      → is_larger_decrease c direction ≡ true
      → c.forced_pwm ≡ false
      → manual_rect_ c ≡ false
      → let c' = pwm_perturb direction c in
        (c'.dcm_hysteresis ≡ true) × (c'.pwm_rect ≡ c.config.pwm_rect_min)
  unfolding pwm_perturb
  large_decrease_resets_rect direction c l f m =
      let moved = start_move direction c in
      let modes = start_move-modes direction c in
      let reset = update_rect-larger moved (rw modes.0 f) (rw modes.1 m) in
      let after =
        drv_commit-writes (is_enabling c direction) true (ltb_ℤ direction (pos 0))
          (update_rect true moved) in
      rw (l, after) (reset.0, reset.1 ∙ ap (λ (g : Config F). g.pwm_rect_min) modes.2)

  compute_pwm_rect_max-switches :
      (c : Converter F)
      → let c' = compute_pwm_rect_max c in
        (c'.config.pwm_rect_min ≡ c.config.pwm_rect_min)
        × (c'.pwm_rect ≡ c.pwm_rect)
        × (c'.sync_rect_enabled ≡ c.sync_rect_enabled)
        × (c'.pwm_ctrl ≡ c.pwm_ctrl)
  unfolding compute_pwm_rect_max
  compute_pwm_rect_max-switches c = ground arith

  -- Without a bootstrap refresh (the boost topology), at the full ctrl on-time, in CCM:
  -- `driverPwmMax - pwmCtrl - 1` wraps, and the rectifier's limit becomes 65535.
  pub full_duty_rect_max :
      (c : Converter F)
      → c.config.pwm_rect_min ≡ 0
      → c.pwm_ctrl ≡ c.config.driver_pwm_max
      → c.dcm_hysteresis ≡ false
      → (compute_pwm_rect_max c).pwm_rect_max ≡ 65535
  unfolding compute_pwm_rect_max
  full_duty_rect_max c m e d = ground arith

  fade_in-positive :
      (c : Converter F)
      → c.pwm_rect_max ≡ 65535
      → c.config.pwm_rect_min ≡ 0
      → c.pwm_rect < 65536
      → c.sync_rect_enabled ≡ true
      → 0 < (fade_in c).pwm_rect
  unfolding constrain
  fade_in-positive c m r w e = ground arith

  start_move-full :
      (n : ℕ) (c : Converter F)
      → c.config.pwm_ctrl_max ≡ c.config.driver_pwm_max
      → c.config.driver_pwm_max < 65536
      → c.config.pwm_ctrl_min ≤ c.config.driver_pwm_max
      → c.config.driver_pwm_max ≤ c.pwm_ctrl + n
      → let c' = start_move (pos n) c in
        (c'.pwm_ctrl ≡ c.config.driver_pwm_max)
        × (c'.dcm_hysteresis ≡ c.dcm_hysteresis)
        × (c'.sync_rect_enabled ≡ c.sync_rect_enabled)
        × (c'.pwm_rect ≡ c.pwm_rect)
  unfolding start_move constrain
  start_move-full n c m w l h = elim (Bool-cases (is_enabling c (pos n) && has_pin_sd c)) [
    | inl e ↦ rw e (ground arith)
    | inr e ↦ rw e (ground arith)
  ]

  update_rect-overrun :
      (c : Converter F)
      → c.config.pwm_rect_min ≡ 0
      → c.pwm_ctrl ≡ c.config.driver_pwm_max
      → c.dcm_hysteresis ≡ false
      → manual_rect_ c ≡ false
      → c.pwm_rect < 65536
      → c.sync_rect_enabled ≡ true
      → (0 < (update_rect false c).pwm_rect) × ((update_rect false c).pwm_ctrl ≡ c.pwm_ctrl)
  unfolding update_rect
  update_rect-overrun c m e d b r s =
      let c1 = compute_pwm_rect_max c in
      let kept = compute_pwm_rect_max-switches c in
      rw b (
        fade_in-positive c1 (full_duty_rect_max c m e d) (kept.0 ∙ m) (rw kept.1 r) (kept.2 ∙ s),
        kept.3,
      )

  -- So with the limits of the boost topology, no bootstrap refresh and the whole period for the ctrl
  -- switch, a move to the full ctrl on-time, in CCM with the rectifier enabled and without the bench
  -- override, commits a rectifier on-time beyond the end of the period.
  pub full_duty_overruns :
      (n : ℕ) (c : Converter F)
      → c.config.pwm_rect_min ≡ 0
      → c.config.pwm_ctrl_max ≡ c.config.driver_pwm_max
      → c.config.driver_pwm_max < 65536
      → c.config.pwm_ctrl_min ≤ c.config.driver_pwm_max
      → c.config.driver_pwm_max ≤ c.pwm_ctrl + n
      → c.dcm_hysteresis ≡ false
      → manual_rect_ c ≡ false
      → c.pwm_rect < 65536
      → c.sync_rect_enabled ≡ true
      → let c' = pwm_perturb (pos n) c in
        (c'.pwm_ctrl ≡ c.config.driver_pwm_max)
        × (c.config.driver_pwm_max < c'.pwm_ctrl + c'.pwm_rect)
  unfolding pwm_perturb
  full_duty_overruns n c m x w l h d b r s =
      let moved = start_move (pos n) c in
      let modes = start_move-modes (pos n) c in
      let full = start_move-full n c x w l h in
      let over =
        update_rect-overrun moved (ap (λ (g : Config F). g.pwm_rect_min) modes.2 ∙ m)
          (full.0 ∙ sym (ap (λ (g : Config F). g.driver_pwm_max) modes.2)) (full.1 ∙ d)
          (rw modes.1 b) (rw full.3 r) (full.2 ∙ s) in
      let small : is_larger_decrease c (pos n) ≡ false = ground arith in
      let after =
        drv_commit-writes (is_enabling c (pos n)) false (ltb_ℤ (pos n) (pos 0))
          (update_rect false moved) in
      rw (small, after) (over.1 ∙ full.0, omega (arith, over.0, over.1, full.0))
