-- ===== src/Converter/Timing.antt =====
-- src/pwm/mcpwm_timing.h: the prescaler search of `bestTiming`, and the conversion of times to PWM
-- counts. `init` of src/buck.h derives its limits from them.
use native.Mathlib.Decide.{dec_lt}
use native.Mathlib.Nat.{div-eq_of_lt, div-lt_iff_lt-mul, le-div_iff_mul-le, div-le_self}
use fugu_mppt_firmware.Prelude.{
  ℕ, zero, suc, ◌+◌, ◌*◌, ◌/◌, ◌≤◌, ◌<◌, ◌≡◌, refl, arith, ltb, Option, none, some, if◌then◌else◌,
  Bool-cases, inl, inr, ◌>>=◌, ◌==◌, u32, false,
}
use fugu_mppt_firmware.Prelude.Int.{ℤ}
use fugu_mppt_firmware.Float.{Float, f0}

pub record PwmTiming : Type 0 where
  pub resolution_hz : ℕ
  pub period_ticks : ℕ
  pub actual_freq : ℕ

-- `while (src_clk / presc / freq > 65535u) ++presc;`, with fuel, for a `freq` that is not 0; `none` means
-- that it ran out.
unfoldable pub find_prescaler : (fuel freq src_clk presc : ℕ) → Option ℕ
find_prescaler zero freq src_clk presc = none
find_prescaler (suc fuel) freq src_clk presc =
    let rest = find_prescaler fuel freq src_clk (presc + 1) in
    if ltb 65535 (src_clk / presc / freq) then rest else some presc

-- `res / ticks` is a division by zero where no tick fits: `none`.
abbrev pub timing_of : (freq src_clk presc : ℕ) → Option PwmTiming
timing_of freq src_clk presc =
    let res = src_clk / presc in
    let ticks = u32 (res + freq / 2) / freq in
    if ticks == 0
    then none
    else some (record { resolution_hz = res; period_ticks = ticks; actual_freq = res / ticks })

-- `none` is a division by zero, that by `freq` or that by the ticks, or the fuel's end. The prescaler
-- never has to exceed the source clock, which is the fuel.
unfoldable pub best_timing : (freq src_clk : ℕ) → Option PwmTiming
best_timing freq src_clk =
    if freq == 0
    then none
    else (find_prescaler (src_clk + 1) freq src_clk 1 >>= timing_of freq src_clk)

busy-le : (freq src_clk presc : ℕ) → 65535 < src_clk / presc / freq → presc ≤ src_clk
busy-le freq src_clk presc h = elim (dec_lt src_clk presc) [
  | yes p ↦ absurd (omega (arith, div-le_self (src_clk / presc) freq, div-eq_of_lt p))
  | no p ↦ omega arith
]

-- The search ends at the least prescaler, from the start on, that fits the period into 16 bits.
pub find_prescaler_lem :
    (fuel freq src_clk presc : ℕ)
    → presc ≤ src_clk + 1
    → src_clk + 1 < presc + fuel
    → (p : ℕ) × (find_prescaler fuel freq src_clk presc ≡ some p)
      × (presc ≤ p)
      × (p ≤ src_clk + 1)
      × (src_clk / p / freq ≤ 65535)
      × ((q : ℕ) → presc ≤ q → q < p → 65535 < src_clk / q / freq)
unfolding find_prescaler
find_prescaler_lem zero freq src_clk presc l h = absurd (omega arith)
find_prescaler_lem (suc fuel) freq src_clk presc l h =
    elim (Bool-cases (ltb 65535 (src_clk / presc / freq))) [
      | inl more ↦
          let busy : 65535 < src_clk / presc / freq = ground arith in
          let low = busy-le freq src_clk presc busy in
          let (q, found, from, last, fits, least) =
            find_prescaler_lem fuel freq src_clk (presc + 1) (omega arith) (omega arith) in
          (
            q,
            rw more found,
            omega arith,
            last,
            fits,
            λ r from_r below. elim (dec_lt presc r) [
              | yes after ↦ least r (omega arith) below
              | no here ↦ let same : presc ≡ r = omega arith in rw (← same) busy
            ],
          )
      | inr stop ↦
          (presc, rw stop, omega arith, l, ground arith, λ r from_r below. absurd (omega arith))
    ]

-- The prescaler behind one that is too small leaves a whole period or more.
freq-le_next :
    (freq src_clk k : ℕ) → 0 < freq → 65535 < src_clk / suc k / freq → freq ≤ src_clk / suc (suc k)
freq-le_next freq src_clk k f h =
    let ticks : 65536 * freq ≤ src_clk / suc k = (le-div_iff_mul-le f).0 (omega (arith, h)) in
    let whole : 65536 * freq * suc k ≤ src_clk =
      (le-div_iff_mul-le {k = suc k} (omega arith)).0 ticks in
    (le-div_iff_mul-le {k = suc (suc k)} (omega arith)).1 (omega (arith, whole))

freq-le_resolution :
    (freq src_clk p : ℕ)
    → 0 < freq
    → freq ≤ src_clk
    → 0 < p
    → ((q : ℕ) → 1 ≤ q → q < p → 65535 < src_clk / q / freq)
    → freq ≤ src_clk / p
freq-le_resolution freq src_clk zero f l q least = absurd (omega arith)
freq-le_resolution freq src_clk (suc zero) f l q least = omega arith
freq-le_resolution freq src_clk (suc (suc k)) f l q least =
    freq-le_next freq src_clk k f (least (suc k) (omega arith) (omega arith))

-- The rounded number of ticks of a resolution that holds a period or more.
period_ticks-range :
    (res freq : ℕ)
    → 0 < freq
    → freq ≤ res
    → res / freq ≤ 65535
    → (0 < (res + freq / 2) / freq) × ((res + freq / 2) / freq ≤ 65536)
period_ticks-range res freq f l fits =
    let below : res < 65536 * freq = (div-lt_iff_lt-mul f).0 (omega arith) in
    let half : freq / 2 < freq = omega arith in
    let some_tick : 1 ≤ (res + freq / 2) / freq = (le-div_iff_mul-le f).1 (omega arith) in
    let quotient : (res + freq / 2) / freq < 65537 = (div-lt_iff_lt-mul f).1 (omega arith) in
    (omega arith, omega arith)

abbrev rounded : (freq src_clk presc : ℕ) → PwmTiming
rounded freq src_clk presc =
    let ticks = (src_clk / presc + freq / 2) / freq in
    record {
      resolution_hz = src_clk / presc;
      period_ticks = ticks;
      actual_freq = src_clk / presc / ticks;
    }

timing_of_lem :
    (freq src_clk p : ℕ)
    → src_clk < 2_147_483_648
    → 0 < freq
    → freq ≤ src_clk
    → freq ≤ src_clk / p
    → src_clk / p / freq ≤ 65535
    → timing_of freq src_clk p ≡ some (rounded freq src_clk p)
timing_of_lem freq src_clk p w f l m fits =
    let no_wrap : u32 (src_clk / p + freq / 2) ≡ src_clk / p + freq / 2 =
      omega (arith, div-le_self src_clk p) in
    let ticks = (period_ticks-range (src_clk / p) freq f m fits).0 in
    let nonzero : ((src_clk / p + freq / 2) / freq == 0) ≡ false = ground arith in
    rw (no_wrap, nonzero) refl

-- For a frequency that is not 0 and not above a source clock below 2^31 Hz, `bestTiming` ends without a
-- division by zero. Its prescaler is the least one that brings the period to 16 bits, the resolution is
-- the clock divided by it, and the period is that resolution over the frequency, rounded, which is
-- between 1 and 65536 ticks.
pub best_timing_lem :
    (freq src_clk : ℕ)
    → 0 < freq
    → freq ≤ src_clk
    → src_clk < 2_147_483_648
    → (t : PwmTiming) × (p : ℕ) × (best_timing freq src_clk ≡ some t)
      × (0 < p)
      × (t.resolution_hz ≡ src_clk / p)
      × (t.resolution_hz / freq ≤ 65535)
      × ((q : ℕ) → 1 ≤ q → q < p → 65535 < src_clk / q / freq)
      × (t.period_ticks ≡ (t.resolution_hz + freq / 2) / freq)
      × (0 < t.period_ticks)
      × (t.period_ticks ≤ 65536)
unfolding best_timing
best_timing_lem freq src_clk f l w =
    let (p, found, from, last, fits, least) =
      find_prescaler_lem (src_clk + 1) freq src_clk 1 (omega arith) (omega arith) in
    let room = freq-le_resolution freq src_clk p f l (omega arith) least in
    let range = period_ticks-range (src_clk / p) freq f room fits in
    let nonzero : (freq == 0) ≡ false = ground arith in
    (
      rounded freq src_clk p,
      p,
      rw (nonzero, found) (timing_of_lem freq src_clk p w f l room fits),
      omega arith,
      refl,
      fits,
      least,
      refl,
      range.0,
      range.1,
    )

module _ {F : Type 0} ⦃fl : Float F⦄ where
  open fl use {mul, div, lt, dec, of_int, lround}

  unfoldable pub pwm_counts_from_ns : F → F → ℤ
  pwm_counts_from_ns ns tick_rate = lround (mul (mul ns (dec 1 9)) tick_rate)

  unfoldable pub rect_offset_counts_from_ns : F → F → ℤ
  rect_offset_counts_from_ns ns tick_rate = pwm_counts_from_ns ns tick_rate

  unfoldable pub rect_offset_ns_from_counts : ℤ → F → F
  rect_offset_ns_from_counts counts tick_rate =
      if lt f0 tick_rate then div (mul (of_int counts) (dec 1_000_000_000 0)) tick_rate else f0
