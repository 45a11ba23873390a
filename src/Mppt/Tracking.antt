-- ===== src/Mppt/Tracking.antt =====
-- `struct Tracker` of src/tracker.h: perturb and observe, with a slow mode near the maximum.
use fugu_mppt_firmware.Prelude.{
  ℕ, ◌+◌, ◌-◌, ◌>>=◌, ◌≡◌, ◌⊎◌, inl, inr, Bool, true, false, ◌&&◌, ◌||◌, not, arith, ltb, u64,
  if◌then◌else◌, Option, some, Bool-cases,
}
use fugu_mppt_firmware.Prelude.Int.{pos}
use fugu_mppt_firmware.Float.{Float, f0, f1}
use fugu_mppt_firmware.Signal.Mean
use fugu_mppt_firmware.Signal.Mean.{MeanAccumulator}

-- `struct MPP`
pub record Mpp (F : Type 0) : Type 0 where
  pub power : F
  pub timestamp : ℕ
  pub duty_cycle : ℕ  -- uint16_t
  pub vin : F

pub record Tracker (F : Type 0) : Type 0 where
  pub min_power_step : F
  pub min_power_step_rel : F
  pub frequency : F
  pub direction : Bool
  pub time : ℕ  -- uint64_t, in ms
  pub time_last_reverse : ℕ
  pub cur_power : F
  pub last_power : F
  pub last_vin : F
  pub power_buf : MeanAccumulator F
  pub vin_buf : MeanAccumulator F
  pub max_power_point : Mpp F
  pub dp : F
  pub slow_mode : Bool

-- `now - since` in time_ms
abbrev pub since_ms : ℕ → ℕ → ℕ
since_ms now since = u64 (now + 18446744073709551616 - since)

module _ {F : Type 0} ⦃fl : Float F⦄ where
  open fl use {sub, mul, div, neg, lt, le, fabs, dec, of_int}

  unfoldable pub reset_direction : ℕ → Bool → Tracker F → Tracker F
  reset_direction now direction t = record t { direction = direction; time = now }

  unfoldable pub reset_tracker : ℕ → F → Bool → Tracker F → Tracker F
  reset_tracker now power direction t = record (reset_direction now direction t) {
    last_power = power;
    max_power_point = record (t.max_power_point) { power = f0; vin = f0 };
  }

  -- The change of power is above the noise.
  abbrev pub moved : Tracker F → F → Bool
  moved t abs_dp =
      le t.min_power_step abs_dp
      || lt (mul t.min_power_step f1) (fabs t.last_power)
        && lt t.min_power_step_rel (div abs_dp (fl.add (fabs t.last_power) (dec 5 0)))

  -- The input voltage changed by 5 % since the last reversal.
  abbrev pub clouded : Tracker F → F → Bool
  clouded t vin = lt (dec 5 2) (div (fabs (sub vin t.last_vin)) (fl.add t.last_vin (dec 1 1)))

  abbrev pub reverses : Tracker F → F → F → Bool
  reverses t dp vin = (moved t (fabs dp) && lt dp f0) || clouded t vin

  -- The observation: which way to go on.
  unfoldable pub observe : (now : ℕ) (power vin : F) → Tracker F → Tracker F
  observe now power vin t =
      let dp = sub power t.last_power in
      let seen : Tracker F = record t { cur_power = power; dp = dp } in
      if lt power f1
      then record seen { direction = true }
      else (let last : F = if moved t (fabs dp) then power else t.last_power in
          if reverses t dp vin
          then (record seen {
            last_power = last;
            direction = not t.direction;
            time_last_reverse = now;
            last_vin = vin;
          })
          else record seen { last_power = last })

  abbrev forget : Mpp F → Mpp F
  forget p = record p { power = f0; vin = f0 }

  abbrev expire_old : ℕ → Mpp F → Mpp F
  expire_old now p = if ltb 300000 (since_ms now p.timestamp) && lt f0 p.power then forget p else p

  abbrev expire_low : ℕ → F → Mpp F → Mpp F
  expire_low now power p =
      if lt power (mul p.power (dec 85 2)) && ltb 30000 (since_ms now p.timestamp) && lt f0 p.power
      then forget p
      else p

  abbrev capture : (now : ℕ) (power vin : F) (duty_cycle : ℕ) → Mpp F → Mpp F
  capture now power vin duty_cycle p =
      if lt (mul p.power (dec 1005 3)) power
      then record { power = power; vin = vin; timestamp = now; duty_cycle = duty_cycle }
      else p

  -- The maximum is forgotten after five minutes, or after half a minute if the power fell below 85 %
  -- of it, and replaced by what is half a percent higher.
  unfoldable pub track_max : (now : ℕ) (power vin : F) (duty_cycle : ℕ) → Mpp F → Mpp F
  track_max now power vin duty_cycle p =
      capture now power vin duty_cycle (expire_low now power (expire_old now p))

  abbrev sampled : (now : ℕ) (duty_cycle : ℕ) → Tracker F → Tracker F
  sampled now duty_cycle t =
      if lt (div (dec 1000 0) t.frequency) (of_int (pos (since_ms now t.time)))
      then (let (power, power_buf) = Mean.pop t.power_buf in
          let (vin, vin_buf) = Mean.pop t.vin_buf in
          let t' : Tracker F = record t { time = now; power_buf = power_buf; vin_buf = vin_buf } in
          record (observe now power vin t') {
            max_power_point = track_max now power vin duty_cycle t.max_power_point;
          })
      else t

  abbrev pub slow_condition : (now : ℕ) (power_sample : F) → Tracker F → Bool
  slow_condition now power_sample t =
      lt (if t.slow_mode then dec 5 1 else dec 2 0) power_sample
      && ltb 30000 (since_ms now t.max_power_point.timestamp)
      && ltb (since_ms now t.time_last_reverse) 15000

  abbrev pub signed : Tracker F → F → F
  signed t speed = if t.direction then speed else neg speed

  -- The speed of the mode. Entering the slow mode returns the way to the duty cycle of the maximum.
  unfoldable pub choose_mode :
      (now : ℕ) (power_sample : F) (duty_cycle : ℕ) → Tracker F → Tracker F × F
  choose_mode now power_sample duty_cycle t =
      if slow_condition now power_sample t
      then (let t' : Tracker F = record t {
        frequency = dec 2 0;
        min_power_step = dec 5 1;
        min_power_step_rel = dec 15 4;
        slow_mode = true;
      } in
          let d = sub (of_int (pos t.max_power_point.duty_cycle)) (of_int (pos duty_cycle)) in
          (t', if t.slow_mode then signed t (dec 2 2) else d))
      else (let t' : Tracker F = record t {
        frequency = dec 30 0;
        min_power_step = f1;
        min_power_step_rel = dec 15 3;
        slow_mode = false;
      } in
          (t', signed t (dec 5 1)))

  -- `none` is a failed assertion of an accumulator.
  unfoldable pub update :
      (now : ℕ) (power_sample : F) (duty_cycle : ℕ) (vin : F) → Tracker F → Option (Tracker F × F)
  update now power_sample duty_cycle vin t = do
    power_buf ← Mean.add power_sample t.power_buf
    vin_buf ← Mean.add vin t.vin_buf
    some (
        choose_mode now power_sample duty_cycle
          (sampled now duty_cycle (record t { power_buf = power_buf; vin_buf = vin_buf })))

  -- One observation turns round at a drop of the power that is above the noise and at a change of the
  -- input voltage by more than 5 %, and goes on otherwise; below one watt it always goes up. At a drop
  -- that is below the noise the reference power is kept, so that small drops add up.
  pub observe_lem :
      (now : ℕ) (power vin : F) (t : Tracker F)
      → let dp = sub power t.last_power in
        let t' = observe now power vin t in
        ((lt power f1 ≡ true) × (t'.direction ≡ true) × (t'.last_power ≡ t.last_power))
        ⊎ ((lt power f1 ≡ false)
            × (reverses t dp vin ≡ true)
            × (t'.direction ≡ not t.direction)
            × (t'.last_vin ≡ vin)
            × (t'.time_last_reverse ≡ now))
        ⊎ ((lt power f1 ≡ false)
            × (reverses t dp vin ≡ false)
            × (t'.direction ≡ t.direction)
            × (t'.last_vin ≡ t.last_vin)
            × ((moved t (fabs dp) ≡ true) × (t'.last_power ≡ power)
                ⊎ (moved t (fabs dp) ≡ false) × (t'.last_power ≡ t.last_power)))
  unfolding observe
  observe_lem now power vin t = elim (Bool-cases (lt power f1)) [
    | inl e ↦ ground arith
    | inr e ↦ elim (Bool-cases (moved t (fabs (sub power t.last_power)))) [
      | inl d ↦ ground arith
      | inr d ↦ ground arith
    ]
  ]

  -- The output is the speed of the mode in the direction of travel, a fiftieth in the slow mode and a
  -- half otherwise, except at the one step that enters the slow mode: it is the way back to the duty
  -- cycle of the maximum. The slow mode is left as soon as its condition fails.
  pub choose_mode_lem :
      (now : ℕ) (power_sample : F) (duty_cycle : ℕ) (t : Tracker F)
      → let (t', out) = choose_mode now power_sample duty_cycle t in
        let slow = slow_condition now power_sample t in
        let back = sub (of_int (pos t.max_power_point.duty_cycle)) (of_int (pos duty_cycle)) in
        (t'.slow_mode ≡ slow)
        × (t'.direction ≡ t.direction)
        × (((t'.slow_mode ≡ true) × (t.slow_mode ≡ false) × (out ≡ back))
            ⊎ ((t'.slow_mode ≡ t.slow_mode) ⊎ (t'.slow_mode ≡ false))
              × (out ≡ signed t (if t'.slow_mode then dec 2 2 else dec 5 1)))
  unfolding choose_mode
  choose_mode_lem now power_sample duty_cycle t = ground arith
