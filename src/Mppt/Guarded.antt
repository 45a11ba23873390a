-- ===== src/Mppt/Guarded.antt =====
-- What the shutdown and the protection of src/mppt.h guarantee.
use fugu_mppt_firmware.Prelude.{
  ℕ, ◌+◌, ◌*◌, ◌/◌, ◌≤◌, ◌<◌, ◌≡◌, ◌⊎◌, inl, inr, refl, Bool, true, false, ◌&&◌, arith, ltb,
  if◌then◌else◌, Bool-cases, ◌∙◌, List, [], ◌∷◌, All,
}
use fugu_mppt_firmware.Float.{Float}
use fugu_mppt_firmware.Converter.{disabled}
use fugu_mppt_firmware.Converter.Perturb.{disable}
use fugu_mppt_firmware.Mppt.{Mppt}
use fugu_mppt_firmware.Mppt.Backflow
use fugu_mppt_firmware.Mppt.Backoff.{
  shutdown_dcdc, in_backoff, power_off, arm_backoff, start_condition, start_block_reason,
}
use fugu_mppt_firmware.Mppt.Tracking.{since_ms}
use fugu_mppt_firmware.Mppt.Protect.{
  Checked, tripped, passed, ◌>>=◌, trip_if, check_vout, check_reverse, check_buck, check_switch,
  check_ratio, checks, protect, over_voltage_threshold, redetect, finish,
}

-- The converter and the switch are off, no sweep runs, and nothing may start before the backoff ends.
pub record IsOff {F : Type 0} (now : ℕ) (m : Mppt F) : Type 0 where
  pub converter_off : disabled m.converter ≡ true
  pub switch_off : m.bflow.on ≡ false
  pub no_sweep : m.sweeping ≡ false
  pub waiting : in_backoff now m ≡ true

module _ {F : Type 0} where
  -- A shutdown with a backoff leaves everything off, and the backoff runs.
  pub shutdown_dcdc-IsOff :
      (now sec : ℕ) (m : Mppt F)
      → 0 < sec
      → now + sec * 1_000_000 < 18446744073709551616
      → IsOff now (shutdown_dcdc now sec m)
  unfolding shutdown_dcdc power_off arm_backoff in_backoff disabled disable Backflow.enable
  shutdown_dcdc-IsOff now sec m pos w = ground arith

  unfoldable pub shutdowns : List (ℕ × ℕ) → Mppt F → Mppt F
  shutdowns [] m = m
  shutdowns (x ∷ xs) m = shutdowns xs (shutdown_dcdc x.0 x.1 m)

  shutdown-deadline :
      (now sec : ℕ) (m : Mppt F)
      → in_backoff now m ≡ true
      → sec ≤ m.backoff_armed_sec
      → let m' = shutdown_dcdc now sec m in
        (m'.backoff_until_us ≡ m.backoff_until_us) × (m'.backoff_armed_sec ≡ m.backoff_armed_sec)
  unfolding shutdown_dcdc power_off arm_backoff in_backoff
  shutdown-deadline now sec m r s = ground arith

  -- Shutdowns that are repeated within a backoff, none of them longer than the one that armed it, do
  -- not put off its end: from the deadline on, the backoff is over, however many there were.
  pub shutdowns-deadline :
      (xs : List (ℕ × ℕ)) (now : ℕ) (m : Mppt F)
      → All (λ x. (in_backoff x.0 m ≡ true) × (x.1 ≤ m.backoff_armed_sec)) xs
      → m.backoff_until_us ≤ now
      → ((shutdowns xs m).backoff_until_us ≡ m.backoff_until_us)
        × (in_backoff now (shutdowns xs m) ≡ false)
  unfolding shutdowns in_backoff
  shutdowns-deadline [] now m all over = ground arith
  shutdowns-deadline (x ∷ xs) now m all over =
      let kept = shutdown-deadline x.0 x.1 m all.0.0 all.0.1 in
      let rest =
        shutdowns-deadline xs now (shutdown_dcdc x.0 x.1 m) (rw (kept.0, kept.1) all.1)
          (ground arith) in
      (rest.0 ∙ kept.0, rest.1)

  -- A longer shutdown within a backoff arms its own length.
  pub longer_shutdown :
      (now sec : ℕ) (m : Mppt F)
      → m.backoff_armed_sec < sec
      → now + sec * 1_000_000 < 18446744073709551616
      → let m' = shutdown_dcdc now sec m in
        (m'.backoff_until_us ≡ now + sec * 1_000_000) × (m'.backoff_armed_sec ≡ sec)
  unfolding shutdown_dcdc power_off arm_backoff
  longer_shutdown now sec m longer w = ground arith

-- The clock is short of its wrap by the longest backoff.
abbrev pub Fits : ℕ → Type 0
Fits now = now + 30_000_000 < 18446744073709551616

module _ {F : Type 0} ⦃fl : Float F⦄ where
  open fl use {lt}

  -- While a backoff runs, nothing may start the converter.
  pub backoff-blocks :
      (now : ℕ) (m : Mppt F) → in_backoff now m ≡ true → start_condition now m ≡ false
  unfolding start_condition start_block_reason
  backoff-blocks now m b = ground arith

  abbrev Outcome : ℕ → Checked F → Type 0
  Outcome now (tripped m) = IsOff now m
  Outcome now (passed m) = Unit

  record TripsOff (now : ℕ) (c : Checked F) : Type 0 where
    holds : Outcome now c

  bind-TripsOff :
      (now : ℕ) (c : Checked F) (f : Mppt F → Checked F)
      → TripsOff now c
      → ((m : Mppt F) → TripsOff now (f m))
      → TripsOff now (c >>= f)
  bind-TripsOff now (tripped m) f t k = record { holds = t.holds }
  bind-TripsOff now (passed m) f t k = k m

  trip_if-TripsOff :
      (now sec : ℕ) (test : Bool) (m : Mppt F)
      → Fits now
      → (sec ≡ 5) ⊎ (sec ≡ 30)
      → TripsOff now (trip_if now sec test m)
  trip_if-TripsOff now sec true m w s = record {
    holds = shutdown_dcdc-IsOff now sec m (ground arith) (ground arith);
  }
  trip_if-TripsOff now sec false m w s = record { holds = _ }

  redetect-IsOff : (now : ℕ) (m : Mppt F) → IsOff now m → IsOff now (redetect now m)
  unfolding in_backoff
  redetect-IsOff now m off =
      elim (Bool-cases
        (m.auto_detect_vout_max && ltb 20_000 (since_ms (now / 1000) m.last_time_protect_passed))) [
          | inl e ↦ rw e (record {
            converter_off = off.converter_off;
            switch_off = off.switch_off;
            no_sweep = off.no_sweep;
            waiting = off.waiting;
          })
          | inr e ↦ rw e off
        ]

  check_vout-TripsOff : (now : ℕ) (m : Mppt F) → Fits now → TripsOff now (check_vout now m)
  unfolding check_vout in_backoff
  check_vout-TripsOff now m w =
      let off =
        redetect-IsOff now (shutdown_dcdc now 5 m)
          (shutdown_dcdc-IsOff now 5 m (omega arith) (omega arith)) in
      elim (Bool-cases (lt (over_voltage_threshold m) m.sampler.vout.last)) [
        | inl e ↦ rw e (record {
          holds = record {
            converter_off = off.converter_off;
            switch_off = off.switch_off;
            no_sweep = off.no_sweep;
            waiting = off.waiting;
          };
        })
        | inr e ↦ rw e (record { holds = _ })
      ]

  passed-TripsOff : (now : ℕ) (m : Mppt F) → TripsOff now (passed m)
  passed-TripsOff now m = record { holds = _ }

  if-TripsOff :
      (now : ℕ) (test : Bool) (c d : Checked F)
      → TripsOff now c
      → TripsOff now d
      → TripsOff now (if test then c else d)
  if-TripsOff now true c d p q = p
  if-TripsOff now false c d p q = q

  check_reverse-TripsOff : (now : ℕ) (m : Mppt F) → TripsOff now (check_reverse now m)
  unfolding check_reverse
  check_reverse-TripsOff now m =
      if-TripsOff now _ _ _ (if-TripsOff now _ _ _ (passed-TripsOff now _) (passed-TripsOff now _))
        (passed-TripsOff now m)

  check_buck-TripsOff : (now : ℕ) (m : Mppt F) → Fits now → TripsOff now (check_buck now m)
  unfolding check_buck
  check_buck-TripsOff now m w = if-TripsOff now _ _ _ (passed-TripsOff now m) (
      bind-TripsOff now _ _
        (bind-TripsOff now _ _ (trip_if-TripsOff now 5 _ m w (inl refl))
          (λ m1. trip_if-TripsOff now 5 _ m1 w (inl refl)))
        (λ m2. passed-TripsOff now _))

  check_switch-TripsOff : (now : ℕ) (m : Mppt F) → Fits now → TripsOff now (check_switch now m)
  unfolding check_switch
  check_switch-TripsOff now m w =
      if-TripsOff now _ _ _
        (bind-TripsOff now _ _ (trip_if-TripsOff now 5 _ m w (inl refl))
          (λ m1. trip_if-TripsOff now 5 _ m1 w (inl refl)))
        (passed-TripsOff now m)

  check_ratio-TripsOff : (now : ℕ) (m : Mppt F) → Fits now → TripsOff now (check_ratio now m)
  unfolding check_ratio
  check_ratio-TripsOff now m w = trip_if-TripsOff now 5 _ _ w (inl refl)

  checks-TripsOff : (now : ℕ) (m : Mppt F) → Fits now → TripsOff now (checks now m)
  unfolding checks
  checks-TripsOff now m w =
      bind-TripsOff now _ _
        (bind-TripsOff now _ _
          (bind-TripsOff now _ _
            (bind-TripsOff now _ _
              (bind-TripsOff now _ _
                (bind-TripsOff now _ _
                  (bind-TripsOff now _ _
                    (bind-TripsOff now _ _
                      (bind-TripsOff now _ _
                        (bind-TripsOff now _ _ (trip_if-TripsOff now 5 _ m w (inl refl))
                          (λ n. check_vout-TripsOff now n w))
                        (λ n. trip_if-TripsOff now 5 _ n w (inl refl)))
                      (λ n. trip_if-TripsOff now 30 _ n w (inr refl)))
                    (check_reverse-TripsOff now))
                  (λ n. trip_if-TripsOff now 5 _ n w (inl refl)))
                (λ n. check_buck-TripsOff now n w))
              (λ n. trip_if-TripsOff now 30 _ n w (inr refl)))
            (λ n. check_switch-TripsOff now n w))
          (λ n. trip_if-TripsOff now 5 _ n w (inl refl)))
        (λ n. check_ratio-TripsOff now n w)

  finish-IsOff :
      (now : ℕ) (c : Checked F)
      → TripsOff now c
      → (finish now c).1 ≡ false
      → IsOff now (finish now c).0
  finish-IsOff now (tripped m) t failed = t.holds
  finish-IsOff now (passed m) t failed = absurd (cc)

  -- Whichever check of `protect` fails, 30 seconds or more before the clock's wrap, the converter and
  -- the switch are off, no sweep runs, a backoff runs, and nothing may start the converter.
  pub protect-IsOff :
      (now : ℕ) (m : Mppt F)
      → Fits now
      → (protect now m).1 ≡ false
      → IsOff now (protect now m).0 × (start_condition now (protect now m).0 ≡ false)
  unfolding protect
  protect-IsOff now m w failed =
      let off = finish-IsOff now (checks now m) (checks-TripsOff now m w) failed in
      (off, backoff-blocks now (protect now m).0 off.waiting)
