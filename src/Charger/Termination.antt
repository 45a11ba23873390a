-- ===== src/Charger/Termination.antt =====
-- `class Li_ChgTerminationCondition` of src/charger.h.
use fugu_mppt_firmware.Prelude.{
  ℕ, ◌+◌, ◌<◌, ◌≡◌, Bool, true, false, ◌&&◌, ◌||◌, not, arith, leb, u8, if◌then◌else◌, List, [],
  ◌∷◌,
}
use fugu_mppt_firmware.Float.{Float, f0}
use fugu_mppt_firmware.Charger.Params.{Params}

abbrev pub vfloor_streak_req : ℕ
vfloor_streak_req = 4

abbrev pub vceil_streak_req : ℕ
vceil_streak_req = 2

pub record Termination (F : Type 0) : Type 0 where
  pub terminated : Bool
  pub v_term : F
  pub vfloor_streak : ℕ  -- uint8_t
  pub ceil_streak : ℕ  -- uint8_t

-- What one call of `update` is given: the highest cell's voltage, the battery current, and the charge
-- since the battery was full.
pub record Frame (F : Type 0) : Type 0 where
  pub vcell_high : F
  pub ibat : F
  pub ah_since_full : F

module _ {F : Type 0} ⦃fl : Float F⦄ where
  open fl use {add, sub, mul, div, neg, lt, le, fmin, fmax, dec, is_finite}

  unfoldable pub reset : Params F → Termination F → Termination F
  reset p t = record { terminated = false; v_term = p.cv_min; vfloor_streak = 0; ceil_streak = 0 }

  -- `vcell_high < p.cv_min - p.recharge_vfloor_band`
  abbrev pub is_low : Params F → Frame F → Bool
  is_low p x = lt x.vcell_high (sub p.cv_min p.recharge_vfloor_band)

  -- The depth of discharge since the battery was full calls for a recharge.
  abbrev pub is_discharged : Params F → Frame F → Bool
  is_discharged p x =
      is_finite p.cbat && lt f0 p.recharge_dod && lt (mul p.recharge_dod p.cbat) x.ah_since_full

  unfoldable pub should_release : Params F → Frame F → Termination F → Termination F × Bool
  should_release p x t =
      let streak = u8 (t.vfloor_streak + 1) in
      if is_low p x && leb vfloor_streak_req streak
      then (record t { vfloor_streak = 0 }, true)
      else (record t { vfloor_streak = if is_low p x then streak else 0 }, is_discharged p x)

  -- The termination line at the present current, capped at `cv_eoc`.
  abbrev pub line : Params F → Frame F → F
  line p x =
      let r = div (sub p.cv_eoc p.cv_min) (mul p.tail_c_rate p.cbat) in
      fmin (add p.cv_min (fmax f0 (mul x.ibat r))) p.cv_eoc

  -- `!terminated and std::isfinite(p.cv_ceiling) and vcell_high >= p.cv_ceiling`
  abbrev pub over_ceiling : Params F → Frame F → Termination F → Bool
  over_ceiling p x t = not t.terminated && is_finite p.cv_ceiling && le p.cv_ceiling x.vcell_high

  -- The highest cell is above the line while the current is not a discharge.
  abbrev pub above_line : Params F → Frame F → Bool
  above_line p x =
      lt (mul (mul (neg p.tail_c_rate) p.cbat) (dec 2 2)) x.ibat && lt (line p x) x.vcell_high

  abbrev decide : Params F → Frame F → Bool → Termination F → Termination F
  decide p x ceiling_latch t =
      if not t.terminated && (ceiling_latch || above_line p x)
      then record t { terminated = true; vfloor_streak = 0; ceil_streak = 0 }
      else (if t.terminated
          then (let (t', released) = should_release p x t in
              if released then record t' { terminated = false } else t')
          else t)

  unfoldable pub update : Params F → Frame F → Termination F → Termination F
  unfolding should_release
  update p x t =
      let streak : ℕ = if over_ceiling p x t then u8 (t.ceil_streak + 1) else 0 in
      decide p x (over_ceiling p x t && leb vceil_streak_req streak)
        (record t { v_term = line p x; ceil_streak = streak })

  unfoldable pub updates : Params F → List (Frame F) → Termination F → Termination F
  updates p [] t = t
  updates p (x ∷ xs) t = updates p xs (update p x t)

  -- Between two frames: the streaks are short of their thresholds, and each counts in its own state.
  pub record IsSettled (t : Termination F) : Type 0 where
    pub floor_below : t.vfloor_streak < vfloor_streak_req
    pub ceil_below : t.ceil_streak < vceil_streak_req
    pub ceil_open : t.terminated ≡ true → t.ceil_streak ≡ 0

  update-IsSettled :
      (p : Params F) (x : Frame F) (t : Termination F) → IsSettled t → IsSettled (update p x t)
  unfolding update
  update-IsSettled p x t s = ground arith

  -- Along every sequence of frames each of the two debounce counters stays short of its threshold, and
  -- the one of the ceiling is 0 while the termination is latched.
  pub updates-IsSettled :
      (p : Params F) (xs : List (Frame F)) (t : Termination F)
      → IsSettled t
      → IsSettled (updates p xs t)
  unfolding updates
  updates-IsSettled p [] t s = s
  updates-IsSettled p (x ∷ xs) t s =
      updates-IsSettled p xs (update p x t) (update-IsSettled p x t s)
