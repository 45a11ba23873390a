-- ===== src/Converter/Bounds.antt =====
-- The on-times that `SynchronousConverter` (src/buck.h) commits stay inside the PWM period.
use fugu_mppt_firmware.Prelude.{
  ℕ, ◌+◌, ◌-◌, ◌≤◌, ◌<◌, ◌≡◌, ◌⊎◌, inl, inr, ap, Bool-cases, refl, Bool, true, arith, max, ◌&&◌,
}
use fugu_mppt_firmware.Prelude.Int.{
  ℤ, pos, negsuc, ltb_ℤ, ◌+ℤ◌, u16_of_int, constrain, constrain-range, sub_ℕ-pos,
}
use native.Mathlib.Decide.{dec_lt}
use fugu_mppt_firmware.Float.{Float}
use fugu_mppt_firmware.Converter.{Converter, Config, has_pin_sd}
use fugu_mppt_firmware.Converter.Driver.{drv_commit, drv_commit_ls_off, drv_shutdown}
use fugu_mppt_firmware.Converter.Rect.{compute_pwm_rect_max}
use fugu_mppt_firmware.Converter.Perturb.{
  pwm_perturb, update_rect, fade_step, start_move, is_enabling, fade_in, hold_manual,
  is_larger_decrease,
}

-- What `init` establishes: the two limits split the period between them.
pub record IsConfigured {F : Type 0} (g : Config F) : Type 0 where
  pub max_fits : g.driver_pwm_max < 65536
  pub split : g.pwm_rect_min + g.pwm_ctrl_max ≡ g.driver_pwm_max
  pub min_le_max : g.pwm_ctrl_min ≤ g.pwm_ctrl_max
  pub min_pos : 0 < g.pwm_ctrl_min

-- The two on-times share the period. A converter with a bootstrap refresh (not the boost topology)
-- never passes its end, and below the largest ctrl on-time the LS off-count stays short of it.
abbrev pub Committed : {F : Type 0} → Converter F → Type 0
Committed c =
    ((c.config.pwm_rect_min ≡ 0) ⊎ (c.pwm_ctrl + c.pwm_rect ≤ c.config.driver_pwm_max))
    × ((c.config.pwm_ctrl_max ≤ c.pwm_ctrl) ⊎ (c.pwm_ctrl + c.pwm_rect < c.config.driver_pwm_max))

pub record IsSafe {F : Type 0} (c : Converter F) : Type 0 where
  pub configured : IsConfigured c.config
  pub ctrl_le : c.pwm_ctrl ≤ c.config.pwm_ctrl_max
  pub committed : Committed c

-- `constrain` between limits that may stand the wrong way round.
pub constrain-le_max :
    (amt : ℤ) (low high : ℕ)
    → low < 65536
    → high < 65536
    → u16_of_int (constrain amt (pos low) (pos high)) ≤ max low high
unfolding constrain
constrain-le_max (pos n) low high h w = ground arith
constrain-le_max (negsuc n) low high h w = ground arith

module _ {F : Type 0} where
  pub hold_manual-Committed :
      (c : Converter F)
      → IsConfigured c.config
      → c.pwm_ctrl ≤ c.config.pwm_ctrl_max
      → Committed (hold_manual c)
  hold_manual-Committed c g h =
      let room = c.config.driver_pwm_max - (c.pwm_ctrl + 1) in
      elim (dec_lt c.pwm_ctrl c.config.driver_pwm_max) [
        | yes p ↦ rw (sub_ℕ-pos c.config.driver_pwm_max (c.pwm_ctrl + 1) (omega arith)) (
            ground (
              arith,
              constrain-le_max c.manual_rect c.config.pwm_rect_min room
                  (omega (arith, g.max_fits, g.split)) (omega (arith, g.max_fits)),
            ))
        | no p ↦ (inl (omega (arith, g.split)), inl (omega (arith, g.split)))
      ]

  fade_in-Committed :
      (c : Converter F)
      → IsConfigured c.config
      → c.pwm_ctrl ≤ c.config.pwm_ctrl_max
      → (c.pwm_ctrl < c.config.driver_pwm_max
          → c.pwm_ctrl + c.pwm_rect_max < c.config.driver_pwm_max)
      → c.pwm_rect_max < 65536
      → Committed (fade_in c)
  fade_in-Committed c g h m high =
      let low : c.config.pwm_rect_min < 65536 = omega (arith, g.max_fits, g.split) in
      ground (
        arith,
        constrain-le_max (pos c.pwm_rect +ℤ fade_step c) c.config.pwm_rect_min c.pwm_rect_max low
            high,
      )

module _ {F : Type 0} ⦃fl : Float F⦄ where
  -- The rectifier's limit never reaches the end of the period, in DCM and in CCM.
  pub compute_pwm_rect_max-lt :
      (c : Converter F)
      → IsConfigured c.config
      → c.pwm_ctrl ≤ c.config.pwm_ctrl_max
      → (c.pwm_ctrl < c.config.driver_pwm_max
          → c.pwm_ctrl + (compute_pwm_rect_max c).pwm_rect_max < c.config.driver_pwm_max)
        × ((compute_pwm_rect_max c).pwm_rect_max < 65536)
  unfolding compute_pwm_rect_max
  compute_pwm_rect_max-lt c g h = ground arith

  -- `pwmRect` is moved, and all that decides it but the limit is kept.
  pub compute_pwm_rect_max-keeps :
      (c : Converter F)
      → let c' = compute_pwm_rect_max c in
        (c'.config ≡ c.config) × (c'.pwm_ctrl ≡ c.pwm_ctrl) × (c'.pwm_rect ≡ c.pwm_rect)
  unfolding compute_pwm_rect_max
  compute_pwm_rect_max-keeps c = ground arith

  pub update_rect-Committed :
      (larger : Bool) (c : Converter F)
      → IsConfigured c.config
      → c.pwm_ctrl ≤ c.config.pwm_ctrl_max
      → Committed (update_rect larger c)
  unfolding update_rect
  update_rect-Committed larger c g h =
      let c1 = record c { dcm_hysteresis = true } in
      ground (
        arith,
        hold_manual-Committed c g h,
        compute_pwm_rect_max-lt c g h,
        compute_pwm_rect_max-lt c1 g h,
        compute_pwm_rect_max-keeps c,
        compute_pwm_rect_max-keeps c1,
        fade_in-Committed (compute_pwm_rect_max c),
      )

  -- The config and the ctrl on-time are not touched by the rectifier's update.
  pub update_rect-keeps :
      (larger : Bool) (c : Converter F)
      → let c' = update_rect larger c in (c'.config ≡ c.config) × (c'.pwm_ctrl ≡ c.pwm_ctrl)
  unfolding update_rect
  update_rect-keeps larger c = ground (
    arith,
    compute_pwm_rect_max-keeps c,
    compute_pwm_rect_max-keeps (record c { dcm_hysteresis = true }),
  )

module _ {F : Type 0} where
  -- The driver calls change the record of writes alone.
  pub drv_commit-writes :
      (enabling larger negative : Bool) (c : Converter F)
      → drv_commit enabling larger negative c
        ≡ record c { writes = (drv_commit enabling larger negative c).writes }
  unfolding drv_commit
  drv_commit-writes enabling larger negative c = ground arith

  pub drv_commit_ls_off-writes :
      (on_ctrl on_rect : ℕ) (c : Converter F)
      → drv_commit_ls_off on_ctrl on_rect c
        ≡ record c { writes = (drv_commit_ls_off on_ctrl on_rect c).writes }
  unfolding drv_commit_ls_off
  drv_commit_ls_off-writes on_ctrl on_rect c = ground arith

  pub drv_shutdown-writes :
      (c : Converter F) → drv_shutdown c ≡ record c { writes = (drv_shutdown c).writes }
  unfolding drv_shutdown
  drv_shutdown-writes c = ground arith

module _ {F : Type 0} where
  pub start_move-config :
      (direction : ℤ) (c : Converter F) → (start_move direction c).config ≡ c.config
  unfolding start_move
  start_move-config direction c = elim (Bool-cases (is_enabling c direction && has_pin_sd c)) [
    | inl e ↦ rw e
    | inr e ↦ rw e
  ]

  pub start_move-range :
      (direction : ℤ) (c : Converter F)
      → IsConfigured c.config
      → let c' = start_move direction c in
        (c'.config ≡ c.config)
        × (c.config.pwm_ctrl_min ≤ c'.pwm_ctrl)
        × (c'.pwm_ctrl ≤ c.config.pwm_ctrl_max)
  unfolding start_move
  start_move-range direction c g =
      let range =
        constrain-range (pos c.pwm_ctrl +ℤ direction) c.config.pwm_ctrl_min c.config.pwm_ctrl_max
          g.min_le_max (omega (arith, g.max_fits, g.split)) in
      elim (Bool-cases (is_enabling c direction && has_pin_sd c)) [
        | inl e ↦ rw e (refl, range.0, range.1)
        | inr e ↦ rw e (refl, range.0, range.1)
      ]

module _ {F : Type 0} ⦃fl : Float F⦄ where
  -- `pwmPerturb`, from a safe state, for any direction and in every mode (DCM or CCM, forced PWM,
  -- bench override, either driver): the ctrl on-time lands between its limits; with a bootstrap
  -- refresh, ctrl and rect together do not pass the PWM period; and in either topology, below the
  -- largest ctrl on-time, the LS off-count stays short of the period's end. At the largest ctrl on-time of
  -- a converter without a refresh (boost) the end of the period is not promised.
  pub pwm_perturb_fits :
      (direction : ℤ) (c : Converter F)
      → IsSafe c
      → let c' = pwm_perturb direction c in
        (c.config.pwm_ctrl_min ≤ c'.pwm_ctrl)
        × (c'.pwm_ctrl ≤ c.config.pwm_ctrl_max)
        × ((c.config.pwm_rect_min ≡ 0) ⊎ (c'.pwm_ctrl + c'.pwm_rect ≤ c.config.driver_pwm_max))
        × ((c.config.pwm_ctrl_max ≤ c'.pwm_ctrl)
            ⊎ (c'.pwm_ctrl + c'.pwm_rect < c.config.driver_pwm_max))
  unfolding pwm_perturb
  pwm_perturb_fits direction c s =
      let g = s.configured in
      let larger = is_larger_decrease c direction in
      let moved = start_move direction c in
      let rectified = update_rect larger moved in
      ground (
        arith,
        start_move-range direction c g,
        update_rect-Committed larger moved,
        update_rect-keeps larger moved,
        ap (λ (x : Converter F). x.pwm_ctrl)
            (drv_commit-writes (is_enabling c direction) larger (ltb_ℤ direction (pos 0))
              rectified),
        ap (λ (x : Converter F). x.pwm_rect)
            (drv_commit-writes (is_enabling c direction) larger (ltb_ℤ direction (pos 0))
              rectified),
      )
