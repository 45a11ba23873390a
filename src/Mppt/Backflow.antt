-- ===== src/Mppt/Backflow.antt =====
-- `class BackflowDriver` of src/pwm/backflow.h: the switch between the panel and the converter.
use fugu_mppt_firmware.Prelude.{
  ℕ, ◌≡◌, Bool, true, false, ◌&&◌, ◌||◌, not, arith, ◌==◌, if◌then◌else◌, Option, none, some, List,
  [], ◌∷◌,
}

-- A level of the enable pin or of the shutdown pin.
pub data PanelWrite : Type 0 where
  panel_en panel_sd : Bool → PanelWrite

pub record BackflowDriver : Type 0 where
  pub on : Bool  -- `_state`
  pub en_pin : ℕ  -- `panelEN`, 0 if there is none
  pub sd_pin : ℕ  -- `panelSD`
  -- the levels so far, the latest first
  pub levels : List PanelWrite

-- `operator bool`: there is a switch.
unfoldable pub present : BackflowDriver → Bool
present b = not (b.sd_pin == 0) || not (b.en_pin == 0)

abbrev drive : Bool → BackflowDriver → List PanelWrite
drive enable b =
    if not (b.en_pin == 0)
    then panel_en enable ∷ b.levels
    else if not (b.sd_pin == 0)
    then panel_sd (not enable) ∷ b.levels
    else b.levels

-- Without `FUGU_FORCE_BFLOW_OFF`.
unfoldable pub enable : Bool → BackflowDriver → BackflowDriver
enable on b = record b { on = on; levels = drive on b }

-- `none` is the failed assertion that a board does not have both pins.
unfoldable pub init : (en_pin sd_pin : ℕ) → BackflowDriver → Option BackflowDriver
init en_pin sd_pin b =
    if not (en_pin == 0) && not (sd_pin == 0)
    then none
    else (let b' : BackflowDriver = record b { en_pin = en_pin; sd_pin = sd_pin } in
        some (record b' { on = false; levels = drive false b' }))

-- Whether the last level, if any, lets current through the switch.
abbrev pub conducts : List PanelWrite → Bool
conducts [] = false
conducts (panel_en level ∷ ls) = level
conducts (panel_sd level ∷ ls) = not level

-- On a board with a switch, the last level on the pin is the state that the driver reports.
pub enable-conducts :
    (on : Bool) (b : BackflowDriver)
    → present b ≡ true
    → (conducts (enable on b).levels ≡ on) × ((enable on b).on ≡ on)
unfolding enable present
enable-conducts on b p = ground arith
