-- ===== src/Converter/Registers.antt =====
-- What the writes of `SynchronousConverter` (src/buck.h) leave in the registers of the gate drivers
-- (src/pwm/ledc.h, src/pwm/mcpwm.h): each channel's on-time within the period, the force latch and
-- the shutdown pin. A channel that is stopped at the high level is on for the whole period.
use fugu_mppt_firmware.Prelude.{
  ℕ, ◌+◌, ◌≤◌, ◌<◌, ◌≡◌, ◌⊎◌, Bool, true, false, arith, List, [], ◌∷◌, if◌then◌else◌,
}
use fugu_mppt_firmware.Converter.{
  Converter, Write, ctrl, rect, digital_write, update_pwm, update_pwm_at, stop, set_hs_off,
  set_ls_off, clear_force, force_shutdown, has_pin_sd,
}
use fugu_mppt_firmware.Converter.Driver.{drv_commit, drv_shutdown, legacy_large_decrease}
use fugu_mppt_firmware.Converter.Perturb.{disable}

-- The ctrl switch is on in [0, ctrl_off), the rect channel in [rect_on, rect_off). With MCPWM the LS
-- output rises where the ctrl switch falls, so `rect_on` follows `ctrl_off`; with EN logic the rect
-- channel is the driver's enable input and starts at 0.
pub record Registers : Type 0 where
  pub ctrl_off : ℕ
  pub rect_on : ℕ
  pub rect_off : ℕ
  pub forced_low : Bool
  pub shut_down : Bool

abbrev pub write : (en_logic : Bool) → Write → Registers → Registers
write en (digital_write pin level) r = record r { shut_down = level }
write en (update_pwm ctrl duty) r = record r { ctrl_off = duty }
write en (update_pwm rect duty) r = record r { rect_on = 0; rect_off = duty }
write en (update_pwm_at ctrl hpoint duty) r = record r { ctrl_off = hpoint + duty }
write en (update_pwm_at rect hpoint duty) r = record r {
  rect_on = hpoint;
  rect_off = hpoint + duty;
}
write en (stop ctrl level) r = record r { ctrl_off = if level then 65535 else 0 }
write en (stop rect level) r = record r { rect_on = 0; rect_off = if level then 65535 else 0 }
write en (set_hs_off n) r = record r { ctrl_off = n; rect_on = if en then 0 else n }
write en (set_ls_off n) r = record r { rect_off = n }
write en clear_force r = record r { forced_low = false }
write en force_shutdown r = record r { forced_low = true }

-- The registers behind a record of writes, the latest write first.
abbrev pub replay : (en_logic : Bool) → List Write → Registers → Registers
replay en [] r = r
replay en (w ∷ ws) r = write en w (replay en ws r)

module _ {F : Type 0} where
  abbrev pub registers : Converter F → Registers → Registers
  registers c r = replay c.config.pwm_en_logic c.writes r

  -- Whatever was written before, and on every branch of `drvCommit` (MCPWM or LEDC, EN or HiLi logic,
  -- with or without a shutdown pin, the three orders of writing), the registers end at the
  -- converter's on-times: the ctrl switch turns off at `pwmCtrl`, and the rect channel at
  -- `pwmCtrl + pwmRect`, if that sum fits a register.
  pub drv_commit-registers :
      (enabling larger negative : Bool) (c : Converter F) (r : Registers)
      → c.pwm_ctrl + c.pwm_rect < 65536
      → let r' = registers (drv_commit enabling larger negative c) r in
        (r'.ctrl_off ≡ c.pwm_ctrl)
        × (r'.rect_off ≡ c.pwm_ctrl + c.pwm_rect)
        × (r'.rect_on ≡ (if c.config.pwm_en_logic then 0 else c.pwm_ctrl))
  unfolding drv_commit
  drv_commit-registers enabling larger negative c r h = ground arith

  -- After `disable` both channels end at 0 and the on-times are 0; with the MCPWM driver the
  -- rectifier is forced low, and where there is a shutdown pin it is up.
  pub disable-registers :
      (c : Converter F) (r : Registers)
      → let r' = registers (disable c) r in
        (r'.ctrl_off ≡ 0)
        × (r'.rect_off ≡ 0)
        × ((disable c).pwm_ctrl ≡ 0)
        × ((disable c).pwm_rect ≡ 0)
        × ((c.config.use_mcpwm ≡ false) ⊎ (r'.forced_low ≡ true))
        × ((has_pin_sd c ≡ false) ⊎ (r'.shut_down ≡ true))
  unfolding disable drv_shutdown
  disable-registers c r = ground arith

-- The two switches of a HiLi driver are never on together: the shutdown pin is up, or the rect
-- channel is empty, or it starts behind the ctrl on-time.
abbrev pub NoOverlap : Registers → Type 0
NoOverlap r = (r.shut_down ≡ true) ⊎ ((r.rect_off ≤ r.rect_on) ⊎ (r.ctrl_off ≤ r.rect_on))

-- So at every moment of a sequence of writes.
abbrev pub NeverOverlaps : (en_logic : Bool) → List Write → Registers → Type 0
NeverOverlaps en [] r = NoOverlap r
NeverOverlaps en (w ∷ ws) r = NoOverlap (replay en (w ∷ ws) r) × NeverOverlaps en ws r

module _ {F : Type 0} where
  -- The writes of a large decrease with LEDC and HiLi logic: from registers without an overlap, no write on the
  -- way to the new on-times makes one, with a shutdown pin and without.
  pub large_decrease_NeverOverlaps :
      (c : Converter F) (r : Registers)
      → c.config.pwm_en_logic ≡ false
      → NoOverlap r
      → NeverOverlaps c.config.pwm_en_logic (legacy_large_decrease c) r
  large_decrease_NeverOverlaps c r e h = ground arith

  -- A small move with LEDC, HiLi logic and a running rectifier: the order of the two writes makes an
  -- overlap between them, when `direction` is negative and the on-time shrinks, and when it is not
  -- and the on-time grows.
  pub small_move_overlaps :
      (negative : Bool) (c : Converter F) (r : Registers)
      → c.config.use_mcpwm ≡ false
      → c.config.pwm_en_logic ≡ false
      → c.writes ≡ []
      → r.shut_down ≡ false
      → r.rect_on ≡ r.ctrl_off
      → r.rect_on < r.rect_off
      → 0 < c.pwm_rect
      → (if negative then c.pwm_ctrl < r.ctrl_off else r.ctrl_off < c.pwm_ctrl)
      → ¬ NeverOverlaps false (drv_commit false false negative c).writes r
  unfolding drv_commit
  small_move_overlaps true c r m e w d o l p q n = ground arith
  small_move_overlaps false c r m e w d o l p q n = ground arith
