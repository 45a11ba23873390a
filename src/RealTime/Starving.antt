-- ===== src/RealTime/Starving.antt =====
-- The watchdogs of the slow loop of src/main.cpp act on what lasts, and on nothing else.
use fugu_mppt_firmware.Prelude.{
  ℕ, suc, ◌-◌, ◌%◌, ◌≤◌, ◌≡◌, ◌⊎◌, inl, inr, refl, sym, subst, Bool, true, false, ◌&&◌, ltb, ◌==◌,
  List, [], ◌∷◌, map, arith, Bool-cases, if_cases, u32,
}
use fugu_mppt_firmware.Float.{Float}
use fugu_mppt_firmware.Float.{f0}
use fugu_mppt_firmware.Converter.{disabled}
use fugu_mppt_firmware.Converter.Bounds.{IsSafe}
use fugu_mppt_firmware.Charger.Battery
use fugu_mppt_firmware.Charger.Pinning
use fugu_mppt_firmware.Charger.Pinning.{
  Charger, update_termination, bat_data_ok, pin_floor, vout_max,
}
use fugu_mppt_firmware.Charger.Regimes.{full_battery_yields}
use fugu_mppt_firmware.Mppt.{avg}
use fugu_mppt_firmware.Mppt.Backoff.{release_cv_floor_latch, clear_backoff}
use fugu_mppt_firmware.RealTime.{RealTime, stop_and_backoff}
use fugu_mppt_firmware.RealTime.Invariant.{LoopSafe, if-LoopSafe, stop_and_backoff-LoopSafe}
use fugu_mppt_firmware.RealTime.Watch.{Sight, IsSince, elapsed}
use fugu_mppt_firmware.RealTime.SlowLoop.{
  count_window, Stuck, Look, watch_stuck, Slow, SlowInput, lf_watchdog, look, lf_stuck_watchdog,
  lf_control, vout_authority, window_sps, loop_lf,
}

-- How many of the latest windows, which come first, were starved in a row.
abbrev pub streak : List Bool → ℕ
streak [] = 0
streak (false ∷ xs) = 0
streak (true ∷ xs) = suc (streak xs)

-- The watchdog's count after the windows, the latest first.
unfoldable pub count_at : List Bool → ℕ
count_at [] = 0
count_at (x ∷ xs) = (count_window x (count_at xs)).0

count_at-streak : (xs : List Bool) → count_at xs ≡ streak xs % 3
unfolding count_at count_window
count_at-streak [] = refl
count_at-streak (false ∷ xs) = refl
count_at-streak (true ∷ xs) = ground (arith, count_at-streak xs)

-- The watchdog of the sample rate trips in a window exactly if the number of starved windows in a row up
-- to and with this one is 3, 6, 9 and so on.
pub count_window-streak :
    (x : Bool) (xs : List Bool)
    → (count_window x (count_at xs)).1 ≡ (ltb 0 (streak (x ∷ xs)) && (streak (x ∷ xs) % 3 == 0))
unfolding count_window
count_window-streak false xs = refl
count_window-streak true xs = ground (arith, count_at-streak xs)

-- The watchdog of a stuck converter after the looks, the latest first.
unfoldable pub stuck_at : List Look → Stuck
stuck_at [] = record { since = 0; tried = false }
stuck_at (x ∷ xs) = (watch_stuck x (stuck_at xs)).0

abbrev pub stuck_sight : Look → Sight
stuck_sight x = record { at = x.at; holds = x.stuck }

abbrev KeepsStart : List Look → Type 0
KeepsStart xs = ((stuck_at xs).since ≡ 0) ⊎ IsSince (stuck_at xs).since (map stuck_sight xs)

stuck-calm :
    (x : Look) (s : Stuck)
    → x.stuck ≡ false
    → ((watch_stuck x s).0.since ≡ 0) × ((watch_stuck x s).1.reboots ≡ false)
unfolding watch_stuck
stuck-calm x s h = rw h (refl, refl)

stuck-begins :
    (x : Look) (s : Stuck)
    → x.stuck ≡ true
    → (s.since == 0) ≡ true
    → ((watch_stuck x s).0.since ≡ x.at) × ((watch_stuck x s).1.reboots ≡ false)
unfolding watch_stuck
stuck-begins x s h z = rw (h, z) (refl, refl)

stuck-goes_on :
    (x : Look) (s : Stuck)
    → x.stuck ≡ true
    → (s.since == 0) ≡ false
    → ((watch_stuck x s).0.since ≡ s.since)
      × ((watch_stuck x s).1.reboots ≡ true → 7_200_000_000 ≤ x.at - s.since)
      × ((watch_stuck x s).1.reboots ≡ true → (watch_stuck x s).0.tried ≡ true)
unfolding watch_stuck
stuck-goes_on x s h n = rw (h, n) (refl, (λ e. ground arith), (λ e. ground arith))

stuck_at-KeepsStart : (xs : List Look) → KeepsStart xs
unfolding stuck_at
stuck_at-KeepsStart [] = inl refl
stuck_at-KeepsStart (x ∷ xs) = elim (Bool-cases x.stuck) [
  | inr h ↦ inl (stuck-calm x (stuck_at xs) h).0
  | inl h ↦ elim (Bool-cases ((stuck_at xs).since == 0)) [
    | inl z ↦ inr (h, inl (sym (stuck-begins x (stuck_at xs) h z).0))
    | inr n ↦ elim (stuck_at-KeepsStart xs) [
      | inl z ↦ absurd (ground arith)
      | inr i ↦
          let kept = (stuck-goes_on x (stuck_at xs) h n).0 in
          inr (h, inr (subst (λ t. IsSince t (map stuck_sight xs)) (sym kept) i))
    ]
  ]
]

-- Whenever the watchdog of a stuck converter restarts the system, whatever it saw since the boot: every
-- look of the last two hours or more found the converter stuck, and the release of the latch in place
-- was tried in them.
pub reboot_needs_stuck :
    (x : Look) (xs : List Look)
    → (watch_stuck x (stuck_at xs)).1.reboots ≡ true
    → ((stuck_at (x ∷ xs)).tried ≡ true)
      × ((t : ℕ) × (7_200_000_000 ≤ x.at - t) × IsSince t (map stuck_sight (x ∷ xs)))
unfolding stuck_at
reboot_needs_stuck x xs reboots = elim (Bool-cases x.stuck) [
  | inr h ↦ absurd (ground (arith, (stuck-calm x (stuck_at xs) h).1, reboots))
  | inl h ↦ elim (Bool-cases ((stuck_at xs).since == 0)) [
    | inl z ↦ absurd (ground (arith, (stuck-begins x (stuck_at xs) h z).1, reboots))
    | inr n ↦
        let (kept, long, tried) = stuck-goes_on x (stuck_at xs) h n in
        elim (stuck_at-KeepsStart xs) [
          | inl z ↦ absurd (ground arith)
          | inr i ↦ (tried reboots, ((stuck_at xs).since, long reboots, (h, inr i)))
        ]
  ]
]

module _ {F : Type 0} ⦃fl : Float F⦄ where
  lf_watchdog-LoopSafe :
      (x : SlowInput) (dt sps num_samples : ℕ) (s : Slow) (r : RealTime F)
      → LoopSafe r
      → LoopSafe (lf_watchdog x dt sps num_samples s r).1
  unfolding lf_watchdog
  lf_watchdog-LoopSafe x dt sps num_samples s r safe =
      if-LoopSafe _ (stop_and_backoff x.now 4 r) r
        (stop_and_backoff-LoopSafe x.now 4 r safe.converter_safe) safe

  lf_stuck_watchdog-LoopSafe :
      (timer : ℕ) (s : Slow) (r : RealTime F)
      → LoopSafe r
      → LoopSafe (lf_stuck_watchdog timer s r).1
  unfolding lf_stuck_watchdog release_cv_floor_latch clear_backoff
  lf_stuck_watchdog-LoopSafe timer s r safe =
      if_cases LoopSafe (watch_stuck (look timer r) s.stuck).1.releases
        (λ _. record { converter_safe = record { safe = safe.converter_safe.safe } }) (λ _. safe)

  -- Every call of the slow loop, whatever its watchdogs do, keeps the converter in its bounds.
  pub loop_lf-IsSafe :
      (x : SlowInput) (interim : Bool) (s : Slow) (r : RealTime F)
      → IsSafe r.mppt.converter
      → IsSafe (loop_lf x interim s r).1.mppt.converter
  unfolding loop_lf lf_control
  loop_lf-IsSafe x true s r safe = safe
  loop_lf-IsSafe x false s r safe =
      let n = r.mppt.sampler.vout.num_samples in
      let dt = elapsed x.now s.last_window in
      let sps = window_sps dt n s in
      let s0 : Slow = record s { last_sps = sps } in
      let w = lf_watchdog x (u32 dt) sps n s0 r in
      let first =
        lf_watchdog-LoopSafe x (u32 dt) sps n s0 r
          (record { converter_safe = record { safe = safe } }) in
      let v = lf_stuck_watchdog x.timer w.0 w.1 in
      let second = lf_stuck_watchdog-LoopSafe x.timer w.0 w.1 first in
      if_cases (λ (z : Slow × RealTime F × Bool). IsSafe z.1.mppt.converter) v.2
        (λ _. second.converter_safe.safe) (λ _. second.converter_safe.safe)

  -- The charger of the slow loop before it chooses its pin.
  abbrev pub updated : (now : ℕ) → RealTime F → Charger F
  updated now r = update_termination now (record (r.mppt.charger) {
    bat_st = Battery.update (avg r.mppt.sampler.vout) r.mppt.charger.bat_st;
  })

  -- The slow loop of a converter that is off: if its battery is full, it pins the lowest voltage of the
  -- feedback, and its output voltage limit is that pin. The battery's data are valid and it is full
  -- after the update of the termination, and the pin is positive and below the highest battery voltage.
  pub idle_converter_yields :
      (now : ℕ) (r : RealTime F)
      → disabled r.mppt.converter ≡ true
      → bat_data_ok now (updated now r) ≡ true
      → (updated now r).term_cond.terminated ≡ true
      → fl.lt f0 (pin_floor (updated now r)) ≡ true
      → fl.lt (pin_floor (updated now r)) (updated now r).params.vbat_max ≡ true
      → vout_max (lf_control now r).mppt.charger ≡ pin_floor (updated now r)
  unfolding lf_control vout_authority Pinning.update
  idle_converter_yields now r off d t p q =
      rw off (full_battery_yields now fl.inf (updated now r) d t p q).0
