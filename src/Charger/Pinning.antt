-- ===== src/Charger/Pinning.antt =====
-- `class BatteryCharger` of src/charger.h: the pin of the pack voltage, with which the charger asks the
-- converter for less than the highest battery voltage.
use fugu_mppt_firmware.Prelude.{
  ℕ, Bool, true, false, ◌&&◌, ◌||◌, not, ◌==◌, if◌then◌else◌, Option, none, some,
}
use fugu_mppt_firmware.Prelude.Int.{pos}
use fugu_mppt_firmware.Float.{Float, f0, std_min}
use fugu_mppt_firmware.Signal.Ewma
use fugu_mppt_firmware.Signal.Ewma.{Ewma}
use fugu_mppt_firmware.Signal.Integrator
use fugu_mppt_firmware.Signal.Glide
use fugu_mppt_firmware.Signal.Glide.{LinearGlide}
use fugu_mppt_firmware.Charger.Params
use fugu_mppt_firmware.Charger.Params.{Params, Conf}
use fugu_mppt_firmware.Charger.Termination
use fugu_mppt_firmware.Charger.Termination.{Termination}
use fugu_mppt_firmware.Charger.Battery
use fugu_mppt_firmware.Charger.Battery.{BatteryState, have_valid_cell_voltage}

pub record Charger (F : Type 0) : Type 0 where
  pub vpack_pin : F
  pub iout_lim : F
  pub v_pin_filt : Ewma F
  pub fallback_glide : LinearGlide F
  pub float_glide : LinearGlide F
  pub was_terminated : Bool
  pub last_bms_frame_us : ℕ  -- uint32_t
  pub bms_cell_source : Bool
  pub term_decided : Bool
  pub params : Params F
  pub term_cond : Termination F
  pub bat_st : BatteryState F

module _ {F : Type 0} ⦃fl : Float F⦄ where
  open fl use {add, sub, mul, lt, le, fabs, fmin, fmax, nan, inf, is_nan, is_finite, dec, of_int}

  -- An exception of `load` is `none`.
  unfoldable pub begin : Conf F → Charger F → Option (Charger F)
  begin conf c = elim (Params.load conf c.params) [
    | none ↦ none
    | some p ↦ some (record c { params = p; term_cond = Termination.reset p c.term_cond })
  ]

  -- One evaluation of the termination condition; on its rising edge the battery is full.
  abbrev pub evaluate : Charger F → Charger F
  evaluate c =
      let frame : Termination.Frame F = record {
        vcell_high = c.bat_st.vcell_high;
        ibat = c.bat_st.ibat_smoothed;
        ah_since_full = Integrator.ah_since_full c.bat_st.coulomb_counter;
      } in
      let term = Termination.update c.params frame c.term_cond in
      let cc = c.bat_st.coulomb_counter in
      record c {
        term_cond = term;
        term_decided = true;
        bat_st = record (c.bat_st) {
          coulomb_counter =
              if not c.term_cond.terminated && term.terminated then Integrator.mark_full cc else cc;
        };
        iout_lim = nan;
      }

  unfoldable pub update_termination : ℕ → Charger F → Charger F
  update_termination now c =
      if not (have_valid_cell_voltage now c.bat_st)
      then c
      else if not (is_finite c.bat_st.ibat_smoothed)
      then c
      else evaluate c

  -- The value is whether something moved.
  unfoldable pub release_vout_pinning : Charger F → Charger F × Bool
  release_vout_pinning c =
      let target : F =
        if is_finite c.params.vbat_max then c.params.vbat_max else c.params.vbat_fallback in
      let changed =
        not (is_finite c.vpack_pin)
        || lt (dec 1 2) (fabs (sub c.vpack_pin target))
        || Glide.active c.fallback_glide
        || Glide.active c.float_glide in
      let c' : Charger F = record c {
        vpack_pin = target;
        iout_lim = nan;
        v_pin_filt = Ewma.reset c.v_pin_filt;
        fallback_glide = Glide.reset c.fallback_glide;
        float_glide = Glide.reset c.float_glide;
        was_terminated = false;
      } in
      (c', changed)

  -- The lowest pin that the feedback may pull to.
  abbrev pub pin_floor : Charger F → F
  pin_floor c = sub c.params.vbat_fallback c.params.vout_offset_max

  abbrev pub v_eoc : Charger F → F
  v_eoc c = fmin c.params.cv_eoc c.term_cond.v_term

  abbrev pub bat_data_ok : ℕ → Charger F → Bool
  bat_data_ok now c = have_valid_cell_voltage now c.bat_st && is_finite c.params.cbat

  -- The bus is another converter's: a full battery yields it, another one stays ready to take it.
  abbrev pub yield_bus : Charger F → Charger F
  yield_bus c =
      if c.term_cond.terminated
      then (record c {
        vpack_pin = pin_floor c;
        iout_lim = nan;
        v_pin_filt = Ewma.reset c.v_pin_filt;
        fallback_glide = Glide.reset c.fallback_glide;
        float_glide = Glide.reset c.float_glide;
        was_terminated = c.term_cond.terminated;
      })
      else (release_vout_pinning c).0

  abbrev pub pin_or_fallback : Charger F → F
  pin_or_fallback c = if is_finite c.vpack_pin then c.vpack_pin else c.params.vbat_fallback

  -- An edge of the termination starts a glide.
  abbrev pub follow_edge : ℕ → Charger F → Charger F
  follow_edge now c =
      let term = c.term_cond.terminated in
      let to : F = if term then c.params.vbat_fallback else c.params.vbat_max in
      if if term then c.was_terminated else not c.was_terminated then c else (record c {
        float_glide = Glide.start (pin_or_fallback c) to now c.float_glide;
        was_terminated = term;
      })

  -- The pin that one step of the feedback asks for, before the filter.
  abbrev pub raw_pin : F → Charger F → F
  raw_pin vbat c =
      let base : F = if is_finite c.vpack_pin then c.vpack_pin else fmin c.bat_st.vout_avg.y vbat in
      let over = mul (sub c.bat_st.vcell_high (v_eoc c)) (of_int (pos c.params.n_cells)) in
      fmax (sub base over) (pin_floor c)

  abbrev pub eoc_step : F → Charger F → Charger F
  eoc_step vbat c =
      let filt = Ewma.step (raw_pin vbat c) c.v_pin_filt in
      record c { last_bms_frame_us = c.bat_st.vcell_high_t; v_pin_filt = filt; vpack_pin = filt.y }

  -- The feedback steps once for each frame from the battery.
  abbrev pub eoc_feedback : F → Charger F → Charger F
  eoc_feedback vbat c =
      let calm : Charger F = record c {
        fallback_glide = Glide.reset c.fallback_glide;
        float_glide = Glide.reset c.float_glide;
      } in
      if not (c.bat_st.vcell_high_t == c.last_bms_frame_us) || is_nan c.vpack_pin
      then eoc_step vbat calm
      else calm

  abbrev pub hold_float : ℕ → Charger F → Charger F
  hold_float now c = record c {
    v_pin_filt = Ewma.reset c.v_pin_filt;
    fallback_glide = Glide.reset c.fallback_glide;
    vpack_pin = Glide.value now c.float_glide;
  }

  abbrev pub fall_back : ℕ → Charger F → Charger F
  fall_back now c =
      let glide =
        if Glide.active c.fallback_glide
        then c.fallback_glide
        else Glide.start (pin_or_fallback c) c.params.vbat_fallback now c.fallback_glide in
      record c {
        v_pin_filt = Ewma.reset c.v_pin_filt;
        float_glide = Glide.reset c.float_glide;
        fallback_glide = glide;
        vpack_pin = Glide.value now glide;
      }

  abbrev pub bulk : ℕ → Charger F → Charger F
  bulk now c = record c {
    v_pin_filt = Ewma.reset c.v_pin_filt;
    fallback_glide = Glide.reset c.fallback_glide;
    vpack_pin =
        if Glide.active c.float_glide then Glide.value now c.float_glide else c.params.vbat_max;
  }

  -- `balancingMode` is the constant false.
  abbrev pub regulate : ℕ → Bool → F → Charger F → Charger F
  regulate now vout_authority vbat c =
      let known = bat_data_ok now c in
      if vout_authority && known && le (v_eoc c) c.bat_st.vcell_high
      then eoc_feedback vbat c
      else if c.term_cond.terminated && known
      then hold_float now c
      else if not known && le f0 c.params.vbat_fallback
      then fall_back now c
      else bulk now c

  -- `_updatePackVoltagePinning`
  unfoldable pub update_pack_voltage_pinning : ℕ → Bool → F → Charger F → Charger F
  update_pack_voltage_pinning now vout_authority vbat c =
      if not vout_authority && bat_data_ok now c
      then yield_bus c
      else regulate now vout_authority vbat (follow_edge now c)

  -- `update(vout, iout, voutAuthority)`; `iout` is unused.
  unfoldable pub update : ℕ → F → Bool → Charger F → Charger F
  update now vout vout_authority c =
      let c1 : Charger F = record c { bat_st = Battery.update vout c.bat_st } in
      let c2 = update_termination now c1 in update_pack_voltage_pinning now vout_authority inf c2

  unfoldable pub vout_max : Charger F → F
  vout_max c =
      if lt f0 c.vpack_pin && lt c.vpack_pin c.params.vbat_max
      then c.vpack_pin
      else c.params.vbat_max

  -- `min` of `Arduino.h` at `float` is `std::min`.
  unfoldable pub iout_max : Charger F → F
  iout_max c =
      if is_finite c.iout_lim then std_min c.params.ibat_lim c.iout_lim else c.params.ibat_lim
