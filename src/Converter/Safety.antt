-- ===== src/Converter/Safety.antt =====
-- Every method of `SynchronousConverter` (src/buck.h) that moves a duty cycle keeps the invariant
-- that the two on-times share one PWM period.
use fugu_mppt_firmware.Prelude.{
  ◌+◌, ◌≤◌, ◌<◌, ◌≡◌, ◌⊎◌, refl, Bool, arith, some, ap, sym, subst, ◌∙◌, inl, inr, if◌then◌else◌,
  Bool-cases,
}
use fugu_mppt_firmware.Prelude.Int.{ℤ, pos, ltb_ℤ, i16_of_int}
use fugu_mppt_firmware.Float.{Float, f0}
use fugu_mppt_firmware.Converter.{Converter, manual_rect_}
use fugu_mppt_firmware.Converter.Driver.{drv_commit_ls_off, drv_shutdown}
use fugu_mppt_firmware.Converter.Rect.{
  compute_pwm_rect_max, compute_dcm, compute_sync_rect_ratio, clamp_rect, update_sync_rect_max_duty,
  sync_rect_min_duty, enable_sync_rect,
}
use fugu_mppt_firmware.Converter.Perturb.{
  pwm_perturb, update_rect, start_move, is_enabling, is_larger_decrease, disable, set_manual_rect,
  pwm_perturb_fractional,
}
use fugu_mppt_firmware.Converter.Bounds.{
  IsConfigured, IsSafe, pwm_perturb_fits, drv_commit-writes, update_rect-keeps, start_move-config,
  compute_pwm_rect_max-keeps, hold_manual-Committed,
}

module _ {F : Type 0} where
  -- A converter is safe by its configuration and its two on-times alone.
  IsSafe-of :
      (c d : Converter F)
      → IsSafe c
      → d.config ≡ c.config
      → d.pwm_ctrl ≤ c.config.pwm_ctrl_max
      → (c.config.pwm_rect_min ≡ 0) ⊎ (d.pwm_ctrl + d.pwm_rect ≤ c.config.driver_pwm_max)
      → (c.config.pwm_ctrl_max ≤ d.pwm_ctrl) ⊎ (d.pwm_ctrl + d.pwm_rect < c.config.driver_pwm_max)
      → IsSafe d
  IsSafe-of c d s e h k l = record {
    configured = subst IsConfigured (sym e) s.configured;
    ctrl_le = rw e h;
    committed = rw e (k, l);
  }

  pub disable-IsSafe : (c : Converter F) → IsSafe c → IsSafe (disable c)
  unfolding disable drv_shutdown
  disable-IsSafe c s = ground arith

  pub sync_rect_min_duty-IsSafe : (c : Converter F) → IsSafe c → IsSafe (sync_rect_min_duty c)
  unfolding sync_rect_min_duty drv_commit_ls_off
  sync_rect_min_duty-IsSafe c s = ground arith

  pub enable_sync_rect-IsSafe :
      (enable overwrite : Bool) (c : Converter F)
      → IsSafe c
      → IsSafe (enable_sync_rect enable overwrite c)
  unfolding enable_sync_rect sync_rect_min_duty drv_commit_ls_off
  enable_sync_rect-IsSafe enable overwrite c s = ground arith

  pub set_manual_rect-IsSafe : (ls : ℤ) (c : Converter F) → IsSafe c → IsSafe (set_manual_rect ls c)
  unfolding set_manual_rect drv_commit_ls_off
  set_manual_rect-IsSafe ls c s =
      let asked = record c { manual_rect = ls } in
      ground (arith, hold_manual-Committed asked s.configured s.ctrl_le)

module _ {F : Type 0} ⦃fl : Float F⦄ where
  pwm_perturb-config :
      (direction : ℤ) (c : Converter F) → (pwm_perturb direction c).config ≡ c.config
  unfolding pwm_perturb start_move
  pwm_perturb-config direction c =
      let larger = is_larger_decrease c direction in
      let moved = start_move direction c in
      ap (λ (x : Converter F). x.config)
        (drv_commit-writes (is_enabling c direction) larger (ltb_ℤ direction (pos 0))
          (update_rect larger moved))
      ∙ (update_rect-keeps larger moved).0
      ∙ start_move-config direction c

  -- `pwmPerturb` keeps the invariant, for every direction.
  pub pwm_perturb-IsSafe :
      (direction : ℤ) (c : Converter F) → IsSafe c → IsSafe (pwm_perturb direction c)
  pwm_perturb-IsSafe direction c s =
      let fits = pwm_perturb_fits direction c s in
      IsSafe-of c (pwm_perturb direction c) s (pwm_perturb-config direction c) fits.1 fits.2 fits.3

  pub pwm_perturb_fractional-IsSafe :
      (direction : F) (c c' : Converter F)
      → IsSafe c
      → pwm_perturb_fractional direction c ≡ some c'
      → IsSafe c'
  unfolding pwm_perturb_fractional
  pwm_perturb_fractional-IsSafe direction c c' s e =
      let c1 = record c { direction_float_buffer = f0 } in
      let total = fl.add direction c.direction_float_buffer in
      let safe1 : IsSafe c1 = IsSafe-of c c1 s refl s.ctrl_le s.committed.0 s.committed.1 in
      ground (arith, pwm_perturb-IsSafe (i16_of_int (fl.to_int total)) c1 safe1)

  compute_sync_rect_ratio-keeps :
      (vh vl il : F) (c : Converter F)
      → let c' = compute_sync_rect_ratio vh vl il c in
        (c'.config ≡ c.config) × (c'.pwm_ctrl ≡ c.pwm_ctrl) × (c'.pwm_rect ≡ c.pwm_rect)
  unfolding compute_sync_rect_ratio compute_dcm
  compute_sync_rect_ratio-keeps vh vl il c = ground arith

  clamp_rect-IsSafe : (c : Converter F) → IsSafe c → IsSafe (clamp_rect c)
  unfolding drv_commit_ls_off
  clamp_rect-IsSafe c s = ground arith

  pub update_sync_rect_max_duty-IsSafe :
      (vin vout il : F) (c : Converter F)
      → IsSafe c
      → IsSafe (update_sync_rect_max_duty vin vout il c).0
  unfolding update_sync_rect_max_duty
  update_sync_rect_max_duty-IsSafe vin vout il c s =
      let vh : F = if c.config.is_boost then vout else vin in
      let vl : F = if c.config.is_boost then vin else vout in
      let c1 = compute_sync_rect_ratio vh vl il c in
      let keeps = compute_sync_rect_ratio-keeps vh vl il c in
      let safe1 : IsSafe c1 =
        IsSafe-of c c1 s keeps.0 (rw keeps.1 s.ctrl_le) (rw (keeps.1, keeps.2) s.committed.0)
          (rw (keeps.1, keeps.2) s.committed.1) in
      let c2 = compute_pwm_rect_max c1 in
      let keeps2 = compute_pwm_rect_max-keeps c1 in
      let safe2 : IsSafe c2 =
        IsSafe-of c1 c2 safe1 keeps2.0 (rw keeps2.1 safe1.ctrl_le)
          (rw (keeps2.1, keeps2.2) safe1.committed.0) (rw (keeps2.1, keeps2.2) safe1.committed.1) in
      elim (Bool-cases (manual_rect_ c1)) [
        | inl e ↦ rw e safe1
        | inr e ↦ rw e (clamp_rect-IsSafe c2 safe2)
      ]
