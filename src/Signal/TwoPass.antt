-- ===== src/Signal/TwoPass.antt =====
-- `EWMA_nPass<2>` and `EWM<false>` of src/math/statmath.h: the average of an average, and the mean
-- square of the relative changes.
use fugu_mppt_firmware.Prelude.{ℕ, ◌≡◌, true, false, arith, if◌then◌else◌}
use fugu_mppt_firmware.Float.{Float, f0, f1}
use fugu_mppt_firmware.Signal.Ewma
use fugu_mppt_firmware.Signal.Ewma.{Ewma}

pub record TwoPass (F : Type 0) : Type 0 where
  pub alpha : F
  pub y0 : F
  pub y1 : F

pub record Ewm (F : Type 0) : Type 0 where
  pub last_x : F
  pub avg : TwoPass F
  pub std : Ewma F

module _ {F : Type 0} ⦃fl : Float F⦄ where
  open fl use {sub, mul, div, nan, is_nan, is_finite, fabs, dec}

  -- The initializer `{NaN}` of the array covers its first element; the second one is zero.
  unfoldable pub new : ℕ → TwoPass F
  new span = record { alpha = Ewma.alpha_of_span span; y0 = nan; y1 = f0 }

  -- One pass, from `y` on the sample `x`.
  abbrev pub pass : F → F → F → F
  pass alpha y x =
      let y' : F = if is_nan y then x else y in fl.add (mul (sub f1 alpha) y') (mul alpha x)

  -- A sample that is NaN ends the loop over the passes.
  unfoldable pub step : F → TwoPass F → TwoPass F
  step x e =
      let y0 = pass e.alpha e.y0 x in
      if is_nan x
      then e
      else if is_nan y0
      then record e { y0 = y0 }
      else record e { y0 = y0; y1 = pass e.alpha e.y1 y0 }

  unfoldable pub reset : TwoPass F → TwoPass F
  reset e = record e { y0 = nan; y1 = nan }

  unfoldable pub reset_ewm : Ewm F → Ewm F
  reset_ewm w = record { last_x = nan; avg = reset w.avg; std = Ewma.reset w.std }

  -- `regularisation` is 0.0001.
  unfoldable pub add : F → Ewm F → Ewm F
  add x w =
      let avg = step x w.avg in
      let pct = div (sub x w.last_x) (fl.add (fabs avg.y1) (dec 1 4)) in
      record {
        last_x = x;
        avg = avg;
        std =
            if is_nan w.last_x
            then w.std
            else if is_finite pct
            then Ewma.step (mul pct pct) w.std
            else w.std;
      }

  -- The first sample after `reset`, a number, starts both passes at it. In a new average the second
  -- pass mixes the first sample with zero instead.
  pub first_sample :
      (span : ℕ) (x : F)
      → is_nan nan ≡ true
      → is_nan f0 ≡ false
      → is_nan x ≡ false
      → is_nan (pass (Ewma.alpha_of_span {F = F} span) x x) ≡ false
      → let a : F = Ewma.alpha_of_span span in
        ((step x (reset (new span))).y1 ≡ pass a (pass a x x) (pass a x x))
        × ((step x (new span)).y1 ≡ fl.add (mul (sub f1 a) f0) (mul a (pass a x x)))
  unfolding step reset new
  first_sample span x n z h k = ground arith
