-- ===== src/Signal/Integrator.antt =====
-- `TrapezoidalIntegrator` of src/math/statmath.h and `CoulombCounter` of src/etc/coulomb_counter.h: the
-- charge since the battery was last full, with its reset handed from one task to the other.
use fugu_mppt_firmware.Prelude.{
  ℕ, ◌+◌, ◌-◌, ◌≡◌, Bool, true, false, ◌&&◌, arith, ltb, u64, if◌then◌else◌,
}
use fugu_mppt_firmware.Prelude.Int.{pos}
use fugu_mppt_firmware.Float.{Float, f0}

pub record Integrator (F : Type 0) : Type 0 where
  pub time_factor : F
  pub max_dt : ℕ
  pub last_time : ℕ  -- uint64_t
  pub last_x : F
  pub value : F

-- `nowTime - lastTime` in uint64_t
abbrev pub elapsed : ℕ → ℕ → ℕ
elapsed now since = u64 (now + 18446744073709551616 - since)

pub record CoulombCounter (F : Type 0) : Type 0 where
  pub integrator : Integrator F
  pub published : F  -- `_ahSinceFull`
  pub reset_requested : Bool

module _ {F : Type 0} ⦃fl : Float F⦄ where
  open fl use {neg, mul, dec, of_int, is_finite}

  unfoldable pub integrate : F → ℕ → Integrator F → Integrator F
  integrate x now i =
      let dt = elapsed now i.last_time in
      let area = mul (mul (fl.add i.last_x x) (dec 5 1)) (mul (of_int (pos dt)) i.time_factor) in
      record i {
        value =
            if ltb dt i.max_dt && is_finite i.last_x && is_finite x
            then fl.add i.value area
            else i.value;
        last_time = now;
        last_x = x;
      }

  unfoldable pub zeroed : Integrator F → Integrator F
  zeroed i = record i { last_time = 0; last_x = f0; value = f0 }

  -- The assertion that nothing was added before is a precondition.
  unfoldable pub restore : F → Integrator F → Integrator F
  restore v i = if is_finite v then record i { value = v } else i

  -- The producer's call, from the BMS task: a pending reset is honoured first.
  unfoldable pub update_bat_current : F → ℕ → CoulombCounter F → CoulombCounter F
  update_bat_current ibat now c =
      let start : Integrator F = if c.reset_requested then zeroed c.integrator else c.integrator in
      let i = integrate (neg ibat) now start in
      record { integrator = i; published = i.value; reset_requested = false }

  -- The consumer's two calls, from the loop task.
  unfoldable pub ah_since_full : CoulombCounter F → F
  ah_since_full c = if c.reset_requested then f0 else c.published

  unfoldable pub mark_full : CoulombCounter F → CoulombCounter F
  mark_full c = record c { reset_requested = true }

  -- From `markFull` on the counter reads 0, and the producer's next call gives the same counter
  -- whatever was counted before, for the same factor and the same longest interval.
  pub mark_full_lem :
      (ibat : F) (now : ℕ) (c d : CoulombCounter F)
      → c.integrator.time_factor ≡ d.integrator.time_factor
      → c.integrator.max_dt ≡ d.integrator.max_dt
      → (ah_since_full (mark_full c) ≡ f0)
        × (update_bat_current ibat now (mark_full c) ≡ update_bat_current ibat now (mark_full d))
  unfolding ah_since_full mark_full update_bat_current zeroed integrate
  mark_full_lem ibat now c d e h = ground arith

  -- A gap in the samples of `max_dt` or more adds nothing, and so does a sample that is not finite.
  pub integrate_gap :
      (x : F) (now : ℕ) (i : Integrator F)
      → (ltb (elapsed now i.last_time) i.max_dt && is_finite x ≡ false)
      → let i' = integrate x now i in (i'.value ≡ i.value) × (i'.last_time ≡ now) × (i'.last_x ≡ x)
  unfolding integrate
  integrate_gap x now i h = ground arith
