-- ===== src/Charger/Detect.antt =====
-- `detectMaxBatteryVoltage` of src/battery.h: the highest voltage of a pack of four or eight LFP cells,
-- from its open-circuit voltage.
use fugu_mppt_firmware.Prelude.{Bool, ◌&&◌, if◌then◌else◌}
use fugu_mppt_firmware.Float.{Float}

module _ {F : Type 0} ⦃fl : Float F⦄ where
  open fl use {mul, lt, nan, dec}

  abbrev pub voltage_step : F
  voltage_step = mul (dec 4 0) (dec 365 2)

  -- The test of the loop, at n = 1 and n = 2.
  abbrev pub fits : F → F → Bool
  fits v n = lt (mul (dec 10 0) n) v && lt v (mul voltage_step n)

  unfoldable pub detect_max_battery_voltage : F → F
  detect_max_battery_voltage v =
      if fits v (dec 1 0)
      then mul voltage_step (dec 1 0)
      else if fits v (dec 2 0)
      then mul voltage_step (dec 2 0)
      else if lt v (dec 10 0)
      then voltage_step
      else nan
