-- ===== src/Signal/Glide.antt =====
-- `LinearGlide` of src/etc/linear_glide.h: a bounded ramp of a setpoint.
use fugu_mppt_firmware.Prelude.{
  ℕ, ◌+◌, ◌≤◌, ◌<◌, ◌≡◌, ◌≢◌, Bool, true, not, arith, leb, ◌==◌, if◌then◌else◌,
}
use fugu_mppt_firmware.Prelude.Int.{pos}
use fugu_mppt_firmware.Float.{Float}
use fugu_mppt_firmware.Signal.Integrator.{elapsed}

pub record LinearGlide (F : Type 0) : Type 0 where
  pub dur_us : ℕ  -- uint32_t
  pub start_us : ℕ  -- uint64_t, 0 if it is inactive
  pub from : F
  pub to : F

module _ {F : Type 0} where
  unfoldable pub start : F → F → ℕ → LinearGlide F → LinearGlide F
  start from to now g = record g { from = from; to = to; start_us = now }

  unfoldable pub active : LinearGlide F → Bool
  active g = not (g.start_us == 0)

  unfoldable pub reset : LinearGlide F → LinearGlide F
  reset g = record g { start_us = 0 }

module _ {F : Type 0} ⦃fl : Float F⦄ where
  open fl use {add, sub, mul, div, of_int}

  unfoldable pub value : ℕ → LinearGlide F → F
  value now g =
      let dt = elapsed now g.start_us in
      if leb g.dur_us dt
      then g.to
      else add g.from (mul (sub g.to g.from) (div (of_int (pos dt)) (of_int (pos g.dur_us))))

  -- A glide that was started at a time other than 0 is active, and from its duration on it holds the
  -- target, as long as the clock does not wrap.
  pub glide_arrives :
      (from to : F) (begun now : ℕ) (g : LinearGlide F)
      → begun ≢ 0
      → begun + g.dur_us ≤ now
      → now < 18446744073709551616
      → let g' = start from to begun g in (active g' ≡ true) × (value now g' ≡ to)
  unfolding start active value
  glide_arrives from to begun now g b d w = ground arith
