-- ===== src/RealTime/Stall.antt =====
-- The watchdog of the ADC in `loopRT` of src/main.cpp: it restarts a converter that gives no samples,
-- stops the power stage if the stall lasts, and restarts the system if it goes on.
use fugu_mppt_firmware.Prelude.{
  ℕ, ◌<◌, ◌≡◌, ◌≢◌, ◌⊎◌, inl, inr, refl, sym, subst, ◌∙◌, Bool-cases, Bool, true, false, ◌&&◌, ◌||◌,
  not, ltb, ◌==◌, if◌then◌else◌, List, [], ◌∷◌, arith, All, map,
}
use fugu_mppt_firmware.Sampler.Calibrating.{
  UpdateRet, no_new_data, new_data, calibrating, calib_failure, adc_error,
}
use fugu_mppt_firmware.RealTime.Watch.{elapsed, Sight, IsSince}

-- `adcStalledSinceMs`, 0 if there is no stall, and `lastAdcResetMs`.
pub record Stall : Type 0 where
  pub since : ℕ
  pub last_reset : ℕ

pub record Alarm : Type 0 where
  pub resets : Bool
  pub stops : Bool
  pub restarts : Bool

abbrev pub is_new_data : UpdateRet → Bool
is_new_data new_data = true
is_new_data no_new_data = false
is_new_data calibrating = false
is_new_data calib_failure = false
is_new_data adc_error = false

abbrev pub is_adc_error : UpdateRet → Bool
is_adc_error adc_error = true
is_adc_error no_new_data = false
is_adc_error new_data = false
is_adc_error calibrating = false
is_adc_error calib_failure = false

-- `adcStalled`
unfoldable pub adc_stalled :
    (now : ℕ) → UpdateRet → (is_calibrating : Bool) (time_last_sampler : ℕ) → Bool
adc_stalled now ret is_calibrating time_last_sampler =
    is_adc_error ret
    || not (is_new_data ret)
      && not is_calibrating
      && not (time_last_sampler == 0)
      && ltb 200_000 (elapsed now time_last_sampler)

-- A pass of the loop at `at` milliseconds; `off` is `converter.disabled() || mppt.inBackoff()`.
pub record StallPass : Type 0 where
  pub at : ℕ
  pub stalled : Bool
  pub off : Bool

abbrev pub stall_start : StallPass → Stall → ℕ
stall_start x s = if s.since == 0 then x.at else s.since

unfoldable pub watch_stall : StallPass → Stall → Stall × Alarm
watch_stall x s =
    if not x.stalled
    then (record s { since = 0 }, record { resets = false; stops = false; restarts = false })
    else (let since = stall_start x s in
        let resets = ltb 300 (elapsed x.at s.last_reset) in
        (
          record { since = since; last_reset = if resets then x.at else s.last_reset },
          record {
            resets = resets;
            stops = ltb 800 (elapsed x.at since) && not x.off;
            restarts = ltb 60_000 (elapsed x.at since);
          },
        ))

-- The watchdog after the passes, the latest first.
unfoldable pub stall_at : List StallPass → Stall
stall_at [] = record { since = 0; last_reset = 0 }
stall_at (x ∷ xs) = (watch_stall x (stall_at xs)).0

-- The watchdog after further passes, in their order.
abbrev pub passes : List StallPass → Stall → Stall
passes [] s = s
passes (x ∷ xs) s = passes xs (watch_stall x s).0

abbrev pub sight : StallPass → Sight
sight x = record { at = x.at; holds = x.stalled }

-- The time that the watchdog keeps is one since when the stall goes on.
abbrev KeepsStart : List StallPass → Type 0
KeepsStart xs = ((stall_at xs).since ≡ 0) ⊎ IsSince (stall_at xs).since (map sight xs)

start_zero : (x : StallPass) (s : Stall) → s.since ≡ 0 → stall_start x s ≡ x.at
start_zero x s e = ground arith

start_kept : (x : StallPass) (s : Stall) → (s.since == 0) ≡ false → stall_start x s ≡ s.since
start_kept x s e = rw e refl

keeps-next :
    (x : StallPass) (s : Stall) (seen : List Sight)
    → x.stalled ≡ true
    → (s.since ≡ 0) ⊎ IsSince s.since seen
    → IsSince (stall_start x s) (sight x ∷ seen)
keeps-next x s seen h (inl zero_) = (h, inl (sym (start_zero x s zero_)))
keeps-next x s seen h (inr i) = elim (Bool-cases (s.since == 0)) [
  | inl e ↦ (h, inl (sym (start_zero x s (ground arith))))
  | inr e ↦ (h, inr (subst (λ t. IsSince t seen) (sym (start_kept x s e)) i))
]

pub watch-since :
    (x : StallPass) (s : Stall)
    → x.stalled ≡ true
    → ((watch_stall x s).0.since ≡ stall_start x s)
      × ((watch_stall x s).1.stops ≡ (ltb 800 (elapsed x.at (stall_start x s)) && not x.off))
      × ((watch_stall x s).1.restarts ≡ ltb 60_000 (elapsed x.at (stall_start x s)))
unfolding watch_stall
watch-since x s h = rw h (refl, refl, refl)

watch-calm :
    (x : StallPass) (s : Stall)
    → x.stalled ≡ false
    → ((watch_stall x s).0.since ≡ 0) × ((watch_stall x s).1.stops ≡ false)
unfolding watch_stall
watch-calm x s h = rw h (refl, refl)

stall_at-KeepsStart : (xs : List StallPass) → KeepsStart xs
unfolding stall_at
stall_at-KeepsStart [] = inl refl
stall_at-KeepsStart (x ∷ xs) = elim (Bool-cases x.stalled) [
  | inl h ↦
      let next = keeps-next x (stall_at xs) (map sight xs) h (stall_at-KeepsStart xs) in
      inr (subst (λ t. IsSince t (map sight (x ∷ xs))) (sym (watch-since x (stall_at xs) h).0) next)
  | inr h ↦ inl (watch-calm x (stall_at xs) h).0
]

-- Whenever the watchdog stops the converter, whatever it saw since the boot: the converter was on and
-- not in a backoff, and the stall had gone on, seen by every pass, for more than 800 ms.
pub stop_needs_stall :
    (x : StallPass) (xs : List StallPass)
    → (watch_stall x (stall_at xs)).1.stops ≡ true
    → (x.off ≡ false) × ((t : ℕ) × (800 < elapsed x.at t) × IsSince t (map sight (x ∷ xs)))
stop_needs_stall x xs stops = elim (Bool-cases x.stalled) [
  | inl h ↦
      let seen = keeps-next x (stall_at xs) (map sight xs) h (stall_at-KeepsStart xs) in
      let why : (ltb 800 (elapsed x.at (stall_start x (stall_at xs))) && not x.off) ≡ true =
        sym (watch-since x (stall_at xs) h).1 ∙ stops in
      (ground arith, (stall_start x (stall_at xs), ground arith, seen))
  | inr h ↦ absurd (ground (arith, sym (watch-calm x (stall_at xs) h).1 ∙ stops))
]

-- From the first stalled pass on, as long as every pass sees the stall, its time is kept.
stall_kept :
    (t : ℕ) (xs : List StallPass) (s : Stall)
    → t ≢ 0
    → s.since ≡ t
    → All (λ x. x.stalled ≡ true) xs
    → (passes xs s).since ≡ t
stall_kept t [] s n e all = e
stall_kept t (x ∷ xs) s n e all =
    stall_kept t xs (watch_stall x s).0 n
      ((watch-since x s all.0).0 ∙ start_kept x s (ground (arith, n)) ∙ e) all.1

-- In a stall that begins at `first`, the watchdog stops the converter in the pass `last` exactly if the
-- pass comes more than 800 ms after `first` and the converter is on and not in a backoff; and it restarts
-- the system exactly if the pass comes more than a minute after `first`. All passes from `first` to
-- `last` see the stall, and the time of `first` is not 0.
pub lasting_stall_stops :
    (first last : StallPass) (between : List StallPass) (s : Stall)
    → s.since ≡ 0
    → first.at ≢ 0
    → first.stalled ≡ true
    → All (λ x. x.stalled ≡ true) between
    → last.stalled ≡ true
    → let alarm = (watch_stall last (passes between (watch_stall first s).0)).1 in
      (alarm.stops ≡ (ltb 800 (elapsed last.at first.at) && not last.off))
      × (alarm.restarts ≡ ltb 60_000 (elapsed last.at first.at))
lasting_stall_stops first last between s calm n h all h' =
    let now = passes between (watch_stall first s).0 in
    let begun = (watch-since first s h).0 ∙ start_zero first s calm in
    let kept : now.since ≡ first.at =
      stall_kept first.at between (watch_stall first s).0 n begun all in
    let start : stall_start last now ≡ first.at =
      start_kept last now (ground (arith, kept, n)) ∙ kept in
    let w = watch-since last now h' in (rw start at w.1, rw start at w.2)
