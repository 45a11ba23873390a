-- ===== src/Converter/Calls.antt =====
-- Sequences of calls of the public methods of `SynchronousConverter` (src/buck.h), in any order, as the
-- controller and the console make them.
use fugu_mppt_firmware.Prelude.{
  Bool, List, [], ◌∷◌, arith, Option, none, some, Option-cases, inl, inr,
}
use fugu_mppt_firmware.Prelude.Int.{ℤ}
use fugu_mppt_firmware.Float.{Float}
use fugu_mppt_firmware.Converter.{Converter}
use fugu_mppt_firmware.Converter.Rect.{
  update_sync_rect_max_duty, sync_rect_min_duty, enable_sync_rect,
}
use fugu_mppt_firmware.Converter.Perturb.{
  pwm_perturb, pwm_perturb_fractional, disable, short_ls, set_manual_rect,
}
use fugu_mppt_firmware.Converter.Driver.{drv_short_ls}
use fugu_mppt_firmware.Converter.Bounds.{IsSafe}
use fugu_mppt_firmware.Converter.Safety.{
  pwm_perturb-IsSafe, pwm_perturb_fractional-IsSafe, disable-IsSafe, sync_rect_min_duty-IsSafe,
  enable_sync_rect-IsSafe, update_sync_rect_max_duty-IsSafe, set_manual_rect-IsSafe,
}

pub data Call (F : Type 0) : Type 0 where
  perturb : ℤ → Call F
  perturb_fractional : F → Call F
  disabling : Call F
  shorting_ls : Call F
  sync_rect : (enable overwrite_fpwm : Bool) → Call F
  rect_min : Call F
  rect_limit : (vin vout il : F) → Call F
  manual : ℤ → Call F
  force_pwm : Bool → Call F

-- The caller that catches `std::out_of_range` goes on with the converter as it was.
abbrev pub caught {ℓ} : {A : Type ℓ} → A → Option A → A
caught c none = c
caught c (some c') = c'

module _ {F : Type 0} ⦃fl : Float F⦄ where
  unfoldable pub call : Call F → Converter F → Converter F
  call (perturb direction) c = pwm_perturb direction c
  call (perturb_fractional direction) c = caught c (pwm_perturb_fractional direction c)
  call disabling c = disable c
  call shorting_ls c = short_ls c
  call (sync_rect enable overwrite) c = enable_sync_rect enable overwrite c
  call rect_min c = sync_rect_min_duty c
  call (rect_limit vin vout il) c = (update_sync_rect_max_duty vin vout il c).0
  call (manual ls) c = set_manual_rect ls c
  call (force_pwm forced) c = record c { forced_pwm = forced }

  unfoldable pub calls : List (Call F) → Converter F → Converter F
  calls [] c = c
  calls (k ∷ ks) c = calls ks (call k c)

  short_ls-IsSafe : (c : Converter F) → IsSafe c → IsSafe (short_ls c)
  unfolding short_ls drv_short_ls
  short_ls-IsSafe c s = grind (arith, disable-IsSafe)

  call-IsSafe : (k : Call F) (c : Converter F) → IsSafe c → IsSafe (call k c)
  unfolding call
  call-IsSafe (perturb direction) c s = pwm_perturb-IsSafe direction c s
  call-IsSafe (perturb_fractional direction) c s =
      elim (Option-cases (pwm_perturb_fractional direction c)) [
        | inl e ↦ rw e s
        | inr (c', e) ↦ rw e (pwm_perturb_fractional-IsSafe direction c c' s e)
      ]
  call-IsSafe disabling c s = disable-IsSafe c s
  call-IsSafe shorting_ls c s = short_ls-IsSafe c s
  call-IsSafe (sync_rect enable overwrite) c s = enable_sync_rect-IsSafe enable overwrite c s
  call-IsSafe rect_min c s = sync_rect_min_duty-IsSafe c s
  call-IsSafe (rect_limit vin vout il) c s = update_sync_rect_max_duty-IsSafe vin vout il c s
  call-IsSafe (manual ls) c s = set_manual_rect-IsSafe ls c s
  call-IsSafe (force_pwm forced) c s = record {
    configured = s.configured;
    ctrl_le = s.ctrl_le;
    committed = s.committed;
  }

  -- A converter in its bounds is in them after any sequence of calls of its methods: with a bootstrap
  -- refresh the two on-times still share one PWM period. A call that throws changes nothing.
  pub calls-IsSafe : (ks : List (Call F)) (c : Converter F) → IsSafe c → IsSafe (calls ks c)
  unfolding calls
  calls-IsSafe [] c s = s
  calls-IsSafe (k ∷ ks) c s = calls-IsSafe ks (call k c) (call-IsSafe k c s)
