-- ===== src/Converter/Driver.antt =====
-- The gate-driver dispatch of `SynchronousConverter` (src/buck.h): `drvCommit`, `drvCommitLsOff`,
-- `drvShutdown` and `drvShortLs`. A driver keeps no state that the converter reads back, so a call is
-- a write that is put on record.
use fugu_mppt_firmware.Prelude.{ℕ, ◌+◌, Bool, true, false, List, [], ◌∷◌, ◌++◌, u16, if◌then◌else◌}
use fugu_mppt_firmware.Converter.{
  Converter, Write, ctrl, rect, digital_write, update_pwm, update_pwm_at, stop, set_hs_off,
  set_ls_off, clear_force, force_shutdown, has_pin_sd,
}

module _ {F : Type 0} where
  -- The calls in `new`, the last one first, follow those on record.
  abbrev pub emit : List Write → Converter F → Converter F
  emit new c = record c { writes = new ++ c.writes }

  -- The LS channel's update: a duty from 0 with EN logic, an on-time behind the HS with HiLi logic.
  abbrev pub ls_write : Converter F → ℕ → ℕ → Write
  ls_write c on_ctrl on_rect =
      if c.config.pwm_en_logic
      then update_pwm rect (on_ctrl + on_rect)
      else update_pwm_at rect on_ctrl on_rect

  -- The LEDC arm of `drvCommit` on a large decrease.
  abbrev pub legacy_large_decrease : Converter F → List Write
  legacy_large_decrease c =
      if c.config.pwm_en_logic
      then (update_pwm rect (c.pwm_ctrl + c.pwm_rect)
          ∷ update_pwm ctrl c.pwm_ctrl
          ∷ update_pwm rect 0
          ∷ [])
      else (if has_pin_sd c
          then (digital_write c.config.pin_sd false
              ∷ update_pwm_at rect c.pwm_ctrl c.pwm_rect
              ∷ update_pwm ctrl c.pwm_ctrl
              ∷ digital_write c.config.pin_sd true
              ∷ [])
          else (update_pwm_at rect c.pwm_ctrl c.pwm_rect
              ∷ update_pwm ctrl c.pwm_ctrl
              ∷ update_pwm rect 0
              ∷ []))

  -- `negative` is the test `direction < 0`.
  unfoldable pub drv_commit : (enabling larger_decrease negative : Bool) → Converter F → Converter F
  drv_commit enabling larger_decrease negative c =
      if c.config.use_mcpwm
      then (emit
          ((if enabling then clear_force ∷ [] else [])
            ++ set_ls_off (u16 (c.pwm_ctrl + c.pwm_rect)) ∷ set_hs_off c.pwm_ctrl ∷ [])
          c)
      else (if larger_decrease
          then emit (legacy_large_decrease c) c
          else (if negative
              then emit (update_pwm ctrl c.pwm_ctrl ∷ ls_write c c.pwm_ctrl c.pwm_rect ∷ []) c
              else emit (ls_write c c.pwm_ctrl c.pwm_rect ∷ update_pwm ctrl c.pwm_ctrl ∷ []) c))

  unfoldable pub drv_commit_ls_off : ℕ → ℕ → Converter F → Converter F
  drv_commit_ls_off on_ctrl on_rect c =
      if c.config.use_mcpwm
      then emit (set_ls_off (u16 (on_ctrl + on_rect)) ∷ []) c
      else emit (ls_write c on_ctrl on_rect ∷ []) c

  unfoldable pub drv_shutdown : Converter F → Converter F
  drv_shutdown c =
      if c.config.use_mcpwm
      then emit (set_ls_off 0 ∷ set_hs_off 0 ∷ force_shutdown ∷ []) c
      else emit (stop rect false ∷ stop ctrl false ∷ []) c

  -- A diagnostic of the LEDC driver; with MCPWM it only warns.
  unfoldable pub drv_short_ls : Converter F → Converter F
  drv_short_ls c =
      if c.config.use_mcpwm
      then c
      else (if c.config.is_boost
          then emit (stop rect false ∷ stop ctrl true ∷ []) c
          else emit (stop ctrl false ∷ stop rect true ∷ []) c)
