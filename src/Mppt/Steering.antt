-- ===== src/Mppt/Steering.antt =====
-- The control loops of src/mppt.cpp keep the converter of src/buck.h in its bounds.
use fugu_mppt_firmware.Prelude.{
  ℕ, ◌/◌, ◌≡◌, ◌>>=◌, sym, subst, inl, inr, refl, Bool, true, false, arith, ◌==◌, if◌then◌else◌,
  Option, none, some, Bool-cases, List, [], ◌∷◌, ◌&&◌,
}
use fugu_mppt_firmware.Prelude.Int.{pos}
use fugu_mppt_firmware.Float.{Float}
use mathlib.Core.Option.{some-injective}
use fugu_mppt_firmware.Signal.Pd
use fugu_mppt_firmware.Signal.Pd.{Pd}
use fugu_mppt_firmware.Converter.{disabled}
use fugu_mppt_firmware.Converter.Bounds.{IsSafe}
use fugu_mppt_firmware.Converter.Safety.{
  disable-IsSafe, enable_sync_rect-IsSafe, pwm_perturb-IsSafe, pwm_perturb_fractional-IsSafe,
}
use fugu_mppt_firmware.Converter.Perturb.{pwm_perturb, pwm_perturb_fractional}
use fugu_mppt_firmware.Mppt.{Mppt, avg}
use fugu_mppt_firmware.Mppt.Tracking
use fugu_mppt_firmware.Mppt.Backoff.{shutdown_dcdc, in_backoff}
use fugu_mppt_firmware.Mppt.Safety.{ConverterSafe, shutdown_dcdc-safe}
use fugu_mppt_firmware.Mppt.Sweeping.{start_sweep, stop_sweep, capture_max, sweep_min_power}
use fugu_mppt_firmware.Mppt.Control.{
  run_controller, run_controllers, limit_mode, follow_target, sweep_step, ramp_step, track,
  apply_value, act, regulate, update_mppt, Limiting, Controller, Decision, continue_with,
  controllers, set_pd, pd_of, actual, target, vin_limit, vout_limit, iin_limit, iout_limit,
  power_limit, is_idle, advance, wake, perturbation, derated_power,
}

module _ {F : Type 0} where
  pub Safe-same : (m n : Mppt F) → m.converter ≡ n.converter → ConverterSafe m → ConverterSafe n
  Safe-same m n e s = record { safe = subst IsSafe e s.safe }

-- What holds of the value, if there is one.
pub record Always {A : Type 0} (P : A → Type 0) (o : Option A) : Type 0 where
  pub holds : (a : A) → o ≡ some a → P a

module _ {A : Type 0} (P : A → Type 0) where
  pub some-Always : (a : A) → P a → Always P (some a)
  some-Always a p = record { holds = λ b e. subst P (some-injective a b e) p }

  pub none-Always : Always P none
  none-Always = record { holds = λ b e. absurd (cc) }

  pub if-Always :
      (test : Bool) (c d : Option A) → Always P c → Always P d → Always P (if test then c else d)
  if-Always true c d p q = p
  if-Always false c d p q = q

  pub bind-Always :
      {B : Type 0} (Q : B → Type 0) (o : Option B) (f : B → Option A)
      → Always Q o
      → ((b : B) → Q b → Always P (f b))
      → Always P (o >>= f)
  bind-Always Q none f q k = none-Always
  bind-Always Q (some b) f q k = k b (q.holds b refl)

module _ {F : Type 0} ⦃fl : Float F⦄ where
  open fl use {lt, inf}

  pub if-safe :
      (test : Bool) (m n : Mppt F)
      → ConverterSafe m
      → ConverterSafe n
      → ConverterSafe (if test then m else n)
  if-safe true m n s t = s
  if-safe false m n s t = t

  set_pd-converter :
      (c : Controller) (p : Pd F) (m : Mppt F) → (set_pd c p m).converter ≡ m.converter
  set_pd-converter vin_limit p m = refl
  set_pd-converter vout_limit p m = refl
  set_pd-converter iin_limit p m = refl
  set_pd-converter iout_limit p m = refl
  set_pd-converter power_limit p m = refl

  pub start_sweep-safe : (m : Mppt F) → ConverterSafe m → ConverterSafe (start_sweep m)
  unfolding start_sweep
  start_sweep-safe m s = record { safe = disable-IsSafe m.converter s.safe }

  capture_max-converter : (p v : F) (m : Mppt F) → (capture_max p v m).converter ≡ m.converter
  unfolding capture_max
  capture_max-converter p v m = ground arith

  stop_sweep-safe : (now : ℕ) (m : Mppt F) → ConverterSafe m → ConverterSafe (stop_sweep now m)
  unfolding stop_sweep
  stop_sweep-safe now m s = elim (Bool-cases (lt m.max_power_point.power sweep_min_power)) [
    | inl e ↦ rw e (
        shutdown_dcdc-safe now 30 (record m { sweeping = false; target_duty_cycle = 0 })
          (record { safe = s.safe }))
    | inr e ↦ rw e (record { safe = s.safe })
  ]

  run_controller-safe :
      (now : ℕ) (m0 : Mppt F) (limit : F) (c : Controller) (s : Mppt F × Limiting F)
      → ConverterSafe s.0
      → ConverterSafe (run_controller now m0 limit c s).0
  unfolding run_controller
  run_controller-safe now m0 limit c (m, l) s =
      let m1 = set_pd c (Pd.update (actual m0 c) (target limit m0 c) (pd_of c m)).0 m in
      let s1 : ConverterSafe m1 = record {
        safe = subst IsSafe (sym (set_pd-converter c _ m)) s.safe;
      } in
      if-safe _ (shutdown_dcdc now 5 m1) m1 (shutdown_dcdc-safe now 5 m1 s1) s1

  run_controllers-safe :
      (now : ℕ) (m0 : Mppt F) (limit : F) (cs : List Controller) (s : Mppt F × Limiting F)
      → ConverterSafe s.0
      → ConverterSafe (run_controllers now m0 limit cs s).0
  unfolding run_controllers
  run_controllers-safe now m0 limit [] s safe = safe
  run_controllers-safe now m0 limit (c ∷ cs) s safe =
      run_controllers-safe now m0 limit cs (run_controller now m0 limit c s)
        (run_controller-safe now m0 limit c s safe)

  limit_mode-converter : (l : Limiting F) (m : Mppt F) → (limit_mode l m).0.converter ≡ m.converter
  unfolding limit_mode
  limit_mode-converter l m = ground arith

  abbrev PairSafe : Mppt F × Decision F → Type 0
  PairSafe r = ConverterSafe r.0

  pair-safe :
      (test : Bool) (r q : Mppt F × Decision F)
      → PairSafe r
      → PairSafe q
      → PairSafe (if test then r else q)
  pair-safe true r q s t = s
  pair-safe false r q s t = t

  advance-safe :
      (now : ℕ) (l : Limiting F) (m : Mppt F) (d : Decision F)
      → ConverterSafe m
      → PairSafe (advance now l m d)
  unfolding advance
  advance-safe now l m d s =
      pair-safe (is_idle d.mode) _ (stop_sweep now m, d)
        (Safe-same m _ (sym (capture_max-converter _ _ m)) s) (stop_sweep-safe now m s)

  sweep_step-Always :
      (now : ℕ) (l : Limiting F) (m : Mppt F) (d : Decision F)
      → ConverterSafe m
      → Always PairSafe (sweep_step now l m d)
  unfolding sweep_step
  sweep_step-Always now l m d s =
      if-Always PairSafe (disabled m.converter && in_backoff now m) none
        (some (advance now l (wake m) d)) (none-Always PairSafe)
        (some-Always PairSafe (advance now l (wake m) d) (
          advance-safe now l (wake m) d (
            if-safe (disabled m.converter)
              (record m { converter = pwm_perturb (pos 1) m.converter }) m
              (record { safe = pwm_perturb-IsSafe (pos 1) m.converter s.safe }) s)))

  ramp_step-converter : (m : Mppt F) (d : Decision F) → (ramp_step m d).0.converter ≡ m.converter
  unfolding ramp_step
  ramp_step-converter m d = ground arith

  follow_target-Always :
      (now : ℕ) (l : Limiting F) (m : Mppt F) (d : Decision F)
      → ConverterSafe m
      → Always PairSafe (follow_target now l m d)
  unfolding follow_target
  follow_target-Always now l m d s =
      if-Always PairSafe _ (sweep_step now l m d) _ (sweep_step-Always now l m d s) (
        some-Always PairSafe _ (
          pair-safe (m.target_duty_cycle == 0) (m, d) (ramp_step m d) s
            (Safe-same m _ (sym (ramp_step-converter m d)) s)))

  track-Always :
      (now : ℕ) (power : F) (m : Mppt F) (d : Decision F)
      → ConverterSafe m
      → Always PairSafe (track now power m d)
  unfolding track
  track-Always now power m d s =
      if-Always PairSafe (is_idle d.mode) _ _
        (bind-Always PairSafe (λ r. Unit)
          (Tracking.update (now / 1000) power m.converter.pwm_ctrl (avg m.sampler.vin) m.tracker) _
          (record { holds = λ r e. _ }) (λ r u. some-Always PairSafe _ (record { safe = s.safe })))
        (some-Always PairSafe _ (record { safe = s.safe }))

  apply_value-Always :
      (now : ℕ) (value : F) (m : Mppt F)
      → ConverterSafe m
      → Always ConverterSafe (apply_value now value m)
  unfolding apply_value
  apply_value-Always now value m s =
      let moved =
        bind-Always ConverterSafe IsSafe
          (pwm_perturb_fractional (perturbation now value m) m.converter)
          (λ c. some (record m { converter = c }))
          (record { holds = λ c e. pwm_perturb_fractional-IsSafe _ m.converter c s.safe e })
          (λ c r. some-Always ConverterSafe (record m { converter = c }) (record { safe = r })) in
      bind-Always ConverterSafe ConverterSafe _ (λ m1. some (record m1 { last_us = now }))
        (if-Always ConverterSafe (m.last_us == 0) (some m) _ (some-Always ConverterSafe m s) moved)
        (λ n r. some-Always ConverterSafe (record n { last_us = now }) (record { safe = r.safe }))

  act-Always :
      (now : ℕ) (power : F) (l : Limiting F) (m : Mppt F) (d : Decision F)
      → ConverterSafe m
      → Always ConverterSafe (act now power l m d)
  unfolding act
  act-Always now power l m d s =
      bind-Always ConverterSafe PairSafe (track now power m d) _ (track-Always now power m d s)
        (λ r q.
          bind-Always ConverterSafe ConverterSafe _ _
            (apply_value-Always now _ _ (record { safe = q.safe }))
            (λ n u.
              some-Always ConverterSafe _
                (record { safe = enable_sync_rect-IsSafe _ false n.converter u.safe })))

  continue_with-Always :
      (now : ℕ) (power : F) (l : Limiting F) (m : Mppt F) (o : Option (Mppt F × Decision F))
      → ConverterSafe m
      → Always PairSafe o
      → Always ConverterSafe (continue_with now power l m o)
  continue_with-Always now power l m none s q = some-Always ConverterSafe m s
  continue_with-Always now power l m (some r) s q = act-Always now power l r.0 r.1 (q.holds r refl)

  regulate-Always :
      (now : ℕ) (limit : F) (m : Mppt F)
      → ConverterSafe m
      → Always ConverterSafe (regulate now limit m)
  unfolding regulate
  regulate-Always now limit m s =
      let ran = run_controllers now m limit controllers (m, record { value = inf; by = none }) in
      let safe1 =
        run_controllers-safe now m limit controllers (m, record { value = inf; by = none }) s in
      let safe2 =
        Safe-same ran.0 (limit_mode ran.1 ran.0).0 (sym (limit_mode-converter ran.1 ran.0)) safe1 in
      continue_with-Always now _ ran.1 _ _ safe2 (follow_target-Always now ran.1 _ _ safe2)

  pub update_mppt-Always :
      (now : ℕ) (m : Mppt F) → ConverterSafe m → Always ConverterSafe (update_mppt now m)
  unfolding update_mppt
  update_mppt-Always now m s =
      if-Always ConverterSafe _ _ _ (some-Always ConverterSafe _ (record { safe = s.safe })) (
        bind-Always ConverterSafe (λ r. Unit) (derated_power m) _ (record { holds = λ r e. _ })
          (λ limit u.
            if-Always ConverterSafe _ _ _
              (some-Always ConverterSafe (start_sweep m) (start_sweep-safe m s))
              (regulate-Always now limit m s)))
