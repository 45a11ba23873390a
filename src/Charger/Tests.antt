-- ===== src/Charger/Tests.antt =====
-- The charger of src/charger.h over `Fixed`: its theorems at concrete inputs.
use Prim.Native.Nat.{Ordering}
use Prim.Native.String
use Prim.Native.String.{String}
use fugu_mppt_firmware.Prelude.{
  Bool, ℕ, ◌≡◌, inl, refl, true, false, arith, some, none, List, [], ◌∷◌,
}
use fugu_mppt_firmware.Prelude.Int.{pos}
use fugu_mppt_firmware.Float.Fixed.{Fixed, fixed_float, millionths}
use fugu_mppt_firmware.Signal.Ewma
use fugu_mppt_firmware.Signal.Ewma.{Ewma}
use fugu_mppt_firmware.Signal.Glide
use fugu_mppt_firmware.Charger.Params.{Params, Conf}
use fugu_mppt_firmware.Charger.Termination
use fugu_mppt_firmware.Charger.Termination.{
  Termination, Frame, IsSettled, updates, updates-IsSettled, should_release, above_line,
}
use fugu_mppt_firmware.Charger.Hysteresis.{LowRun, released-LowRun}
use fugu_mppt_firmware.Charger.Battery.{BatteryState, have_valid_cell_voltage}
use fugu_mppt_firmware.Charger.Pinning.{Charger, update_pack_voltage_pinning}
use fugu_mppt_firmware.Charger.Regimes.{stale_data_falls_back, same_frame_holds, pinning_stays_in}

-- Eight LFP cells of 280 Ah.
abbrev pub lfp : Params Fixed
lfp = record {
  vbat_max = millionths 28_000_000;
  vbat_fallback = millionths 26_600_000;
  ibat_lim = millionths 20_000_000;
  cbat = millionths 280_000_000;
  cv_min = millionths 3_325_000;
  cv_eoc = millionths 3_500_000;
  cv_ceiling = millionths 3_550_000;
  n_cells = 8;
  tail_c_rate = millionths 50_000;
  recharge_dod = millionths 200_000;
  recharge_vfloor_band = millionths 50_000;
  vout_offset_max = millionths 600_000;
}

abbrev pub latched : Termination Fixed
latched = record {
  terminated = true;
  v_term = millionths 3_325_000;
  vfloor_streak = 0;
  ceil_streak = 0;
}

abbrev pub charging : Termination Fixed
charging = record latched { terminated = false }

abbrev sagging : Frame Fixed
sagging = record {
  vcell_high = millionths 3_200_000;
  ibat = millionths 0;
  ah_since_full = millionths 1_000_000;
}

abbrev resting : Frame Fixed
resting = record sagging { vcell_high = millionths 3_400_000 }

abbrev over : Frame Fixed
over = record sagging { vcell_high = millionths 3_600_000; ibat = millionths 30_000_000 }

-- Three sags, a frame of rest, and four sags.
abbrev frames : List (Frame Fixed)
frames = sagging ∷ sagging ∷ sagging ∷ resting ∷ sagging ∷ sagging ∷ sagging ∷ sagging ∷ []

released-LowRun_example : LowRun lfp frames
unfolding updates Termination.update should_release
released-LowRun_example =
    released-LowRun lfp frames latched refl refl
      (refl, (refl, (refl, (refl, (refl, (refl, (refl, (refl, _)))))))) refl

abbrev empty_average : Ewma Fixed
empty_average = record { alpha = millionths 400_000; y = none }

abbrev bat_st : BatteryState Fixed
bat_st = record {
  vcell_high = millionths 3_400_000;
  vcell_high_t = 1_000;
  vout_avg = record empty_average { y = millionths 27_000_000 };
  coulomb_counter = record {
    integrator = record {
      time_factor = millionths 0;
      max_dt = 60_000_000;
      last_time = 0;
      last_x = millionths 0;
      value = millionths 5_000_000;
    };
    published = millionths 5_000_000;
    reset_requested = false;
  };
  ibat_ewma = empty_average;
  ibat_samples = 0;
  ibat_smoothed = none;
}

abbrev currents : List (Fixed × ℕ)
currents = (millionths 1_000_000, 1_000) ∷ (millionths 2_000_000, 2_000) ∷ (none, 3_000) ∷ []

abbrev glide : Glide.LinearGlide Fixed
glide = record { dur_us = 5_000_000; start_us = 0; from = millionths 0; to = millionths 0 }

abbrev pub charger : Charger Fixed
charger = record {
  vpack_pin = millionths 27_500_000;
  iout_lim = none;
  v_pin_filt = empty_average;
  fallback_glide = glide;
  float_glide = glide;
  was_terminated = false;
  last_bms_frame_us = 0;
  bms_cell_source = true;
  term_decided = false;
  params = lfp;
  term_cond = charging;
  bat_st = bat_st;
}

abbrev pub full : Charger Fixed
full = record charger { term_cond = latched; was_terminated = true }

-- Four minutes after the last frame.
stale_data_falls_back_example :
    let c1 = update_pack_voltage_pinning 240_001_000 true (some (pos 0)) charger in
    let c2 = update_pack_voltage_pinning 245_001_000 true (some (pos 0)) c1 in
    (c1.fallback_glide.to ≡ millionths 26_600_000)
    × (c1.fallback_glide.from ≡ millionths 27_500_000)
    × (c2.vpack_pin ≡ millionths 26_600_000)
unfolding have_valid_cell_voltage
stale_data_falls_back_example =
    stale_data_falls_back 240_001_000 245_001_000 true (some (pos 0)) charger refl refl refl refl
      refl (λ e. omega arith) (omega arith) (omega arith)

-- The charger of a full battery glides and regulates before it loses the authority.
abbrev history : List (ℕ × Bool × Fixed)
history =
    (1_000, true, millionths 27_000_000)
    ∷ (240_001_000, true, millionths 27_000_000)
    ∷ (240_501_000, false, millionths 27_000_000)
    ∷ []

same_frame_holds_example :
    let c1 = update_pack_voltage_pinning 2_000 true (some (pos 0)) charger in
    update_pack_voltage_pinning 50_000 true (some (pos 0)) c1 ≡ c1
unfolding have_valid_cell_voltage update_pack_voltage_pinning Ewma.step
same_frame_holds_example = same_frame_holds 2_000 50_000 (some (pos 0)) charger refl refl refl refl

-- The pin stays a number.
abbrev IsNumber : Fixed → Type 0
IsNumber none = (true ≡ false)
IsNumber (some a) = Unit

IsNumber-keeps : Ewma.KeepsRange IsNumber (millionths 400_000)
IsNumber-keeps none b p q = absurd (cc)
IsNumber-keeps (some a) none p q = absurd (cc)
IsNumber-keeps (some a) (some b) p q = _

IsNumber-floor : (a : Fixed) → IsNumber (fixed_float.fmax a (millionths 26_000_000))
IsNumber-floor none = _
IsNumber-floor (some a) = _

pinning_stays_in_example :
    let c' = update_pack_voltage_pinning 2_000 true (some (pos 0)) charger in
    (c'.vpack_pin ≡ c'.v_pin_filt.y) × IsNumber c'.vpack_pin
unfolding have_valid_cell_voltage
pinning_stays_in_example =
    pinning_stays_in IsNumber 2_000 (some (pos 0)) charger IsNumber-keeps IsNumber-floor refl refl
      refl (λ e. omega arith) (inl refl)

-- A configuration with the voltage and the capacity only.
abbrev conf : Conf Fixed
conf name = elim (String.compare name "vout_max") [
  | Ordering.eq ↦ some (millionths 28_000_000)
  | _ ↦ none
]

abbrev loaded_params : Params Fixed
loaded_params = record lfp { ibat_lim = millionths 20_000_000; cbat = none }
