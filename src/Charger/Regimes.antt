-- ===== src/Charger/Regimes.antt =====
-- The regimes of `BatteryCharger::_updatePackVoltagePinning` of src/charger.h.
use fugu_mppt_firmware.Prelude.{
  ℕ, ◌+◌, ◌≤◌, ◌<◌, ◌≡◌, ◌≢◌, ◌⊎◌, ◌∙◌, inl, inr, refl, if◌then◌else◌, ap, Bool, true, false, arith,
  ◌==◌, Bool-cases, List, [], ◌∷◌,
}
use fugu_mppt_firmware.Float.{Float, f0}
use fugu_mppt_firmware.Signal.Ewma
use fugu_mppt_firmware.Signal.Ewma.{Ewma}
use fugu_mppt_firmware.Signal.Integrator
use fugu_mppt_firmware.Signal.Glide
use fugu_mppt_firmware.Signal.Glide.{LinearGlide, glide_arrives}
use fugu_mppt_firmware.Charger.Pinning.{
  Charger, update_termination, update_pack_voltage_pinning, release_vout_pinning, pin_floor, v_eoc,
  bat_data_ok, pin_or_fallback, follow_edge, raw_pin, vout_max,
}

module _ {F : Type 0} ⦃fl : Float F⦄ where
  open fl use {le, lt, fmax, is_nan, is_finite, nan}

  follow_edge-kept :
      (now : ℕ) (c : Charger F)
      → let e = follow_edge now c in
        (e.fallback_glide ≡ c.fallback_glide)
        × (e.vpack_pin ≡ c.vpack_pin)
        × (e.params ≡ c.params)
        × (e.bat_st ≡ c.bat_st)
  follow_edge-kept now c = ground arith

  idle : (g : LinearGlide F) → g.start_us ≡ 0 → Glide.active g ≡ false
  unfolding Glide.active
  idle g h = ground arith

  -- What one call without data does to the fallback's glide and the pin.
  fall_back_lem :
      (now : ℕ) (authority : Bool) (vbat : F) (c : Charger F)
      → bat_data_ok now c ≡ false
      → le f0 c.params.vbat_fallback ≡ true
      → let c' = update_pack_voltage_pinning now authority vbat c in
        (c'.fallback_glide ≡ (
          if Glide.active c.fallback_glide
          then c.fallback_glide
          else Glide.start (pin_or_fallback c) c.params.vbat_fallback now c.fallback_glide))
        × (c'.vpack_pin ≡ Glide.value now c'.fallback_glide)
        × (c'.params ≡ c.params)
        × (c'.bat_st ≡ c.bat_st)
  unfolding update_pack_voltage_pinning
  fall_back_lem now authority vbat c d f = ground arith

  -- Without data from the battery, with a fallback voltage from 0 on, the pin glides to the fallback
  -- voltage: the first call starts the glide of five seconds there, and the next call, five seconds
  -- later or more and before the clock's wrap, pins the fallback voltage.
  pub stale_data_falls_back :
      (t0 t1 : ℕ) (authority : Bool) (vbat : F) (c : Charger F)
      → bat_data_ok t0 c ≡ false
      → bat_data_ok t1 c ≡ false
      → le f0 c.params.vbat_fallback ≡ true
      → c.fallback_glide.start_us ≡ 0
      → c.fallback_glide.dur_us ≡ 5_000_000
      → t0 ≢ 0
      → t0 + 5_000_000 ≤ t1
      → t1 < 18446744073709551616
      → let c1 = update_pack_voltage_pinning t0 authority vbat c in
        let c2 = update_pack_voltage_pinning t1 authority vbat c1 in
        (c1.fallback_glide.to ≡ c.params.vbat_fallback)
        × (c1.fallback_glide.from ≡ pin_or_fallback c)
        × (c2.vpack_pin ≡ c.params.vbat_fallback)
  unfolding Glide.start
  stale_data_falls_back t0 t1 authority vbat c d0 d1 f s dur nz later w =
      let c1 = update_pack_voltage_pinning t0 authority vbat c in
      let (g1, _, p1, b1) = fall_back_lem t0 authority vbat c d0 f in
      let begun : c1.fallback_glide
          ≡ Glide.start (pin_or_fallback c) c.params.vbat_fallback t0 c.fallback_glide =
        rw (idle c.fallback_glide s) at g1 in
      let d1' : bat_data_ok t1 c1 ≡ false = rw (p1, b1) d1 in
      let (g2, v2, _, _) = fall_back_lem t1 authority vbat c1 d1' (rw p1 f) in
      let arrived =
        glide_arrives (pin_or_fallback c) c.params.vbat_fallback t0 t1 c.fallback_glide nz
          (omega (arith, dur, later)) w in
      (ap (λ g. g.to) begun, ap (λ g. g.from) begun, v2 ∙ rw (g2, begun, arrived.0) arrived.1)

  -- A converter without authority over the bus whose battery is full yields it: it pins the lowest
  -- voltage of the feedback, forgets its filter and glides, and its output voltage limit is that pin,
  -- if the pin is positive and below the highest battery voltage.
  pub full_battery_yields :
      (now : ℕ) (vbat : F) (c : Charger F)
      → bat_data_ok now c ≡ true
      → c.term_cond.terminated ≡ true
      → lt f0 (pin_floor c) ≡ true
      → lt (pin_floor c) c.params.vbat_max ≡ true
      → let c' = update_pack_voltage_pinning now false vbat c in
        (vout_max c' ≡ pin_floor c)
        × (c'.was_terminated ≡ true)
        × (c'.v_pin_filt.y ≡ nan)
        × (Glide.active c'.float_glide ≡ false)
        × (Glide.active c'.fallback_glide ≡ false)
  unfolding update_pack_voltage_pinning vout_max Ewma.reset Glide.active Glide.reset
  full_battery_yields now vbat c d t p q = ground arith

  -- If the battery is not full and its highest voltage is finite, a converter without authority is
  -- released: its limit is the highest battery voltage again, and the termination's state that the
  -- edges are found by is that of a battery that is not full.
  pub open_battery_released :
      (now : ℕ) (vbat : F) (c : Charger F)
      → bat_data_ok now c ≡ true
      → c.term_cond.terminated ≡ false
      → is_finite c.params.vbat_max ≡ true
      → let c' = update_pack_voltage_pinning now false vbat c in
        (vout_max c' ≡ c.params.vbat_max) × (c'.was_terminated ≡ false)
  unfolding update_pack_voltage_pinning release_vout_pinning vout_max
  open_battery_released now vbat c d t p = ground arith

  -- The charger's calls since some state, each with its time, its authority and the voltage.
  unfoldable pub pinned : List (ℕ × Bool × F) → Charger F → Charger F
  pinned [] c = c
  pinned ((now, authority, vbat) ∷ xs) c =
      pinned xs (update_pack_voltage_pinning now authority vbat c)

  -- The pin without authority: the lowest one for a full battery, otherwise the highest voltage.
  abbrev pub idle_pin : Charger F → F
  idle_pin c =
      if c.term_cond.terminated
      then pin_floor c
      else if is_finite c.params.vbat_max
      then c.params.vbat_max
      else c.params.vbat_fallback

  -- With data, authority and a cell at or above its end of charge, a second call on the same frame of
  -- the battery changes nothing once the pin is a number: the integration is paced by the battery's
  -- frames, not by the control loop.
  pub same_frame_holds :
      (t0 t1 : ℕ) (vbat : F) (c : Charger F)
      → bat_data_ok t0 c ≡ true
      → bat_data_ok t1 c ≡ true
      → le (v_eoc c) c.bat_st.vcell_high ≡ true
      → is_nan (update_pack_voltage_pinning t0 true vbat c).vpack_pin ≡ false
      → let c1 = update_pack_voltage_pinning t0 true vbat c in
        update_pack_voltage_pinning t1 true vbat c1 ≡ c1
  unfolding update_pack_voltage_pinning Glide.reset Glide.start
  same_frame_holds t0 t1 vbat c d0 d1 e = ground arith

  -- A rising edge of the termination re-zeroes the charge since full; without one, the state of the
  -- battery is not touched.
  pub rising_edge_zeroes :
      (now : ℕ) (c : Charger F)
      → let c' = update_termination now c in
        ((c.term_cond.terminated ≡ false)
          × (c'.term_cond.terminated ≡ true)
          × (Integrator.ah_since_full c'.bat_st.coulomb_counter ≡ f0))
        ⊎ (c'.bat_st ≡ c.bat_st)
          × ((c.term_cond.terminated ≡ true) ⊎ (c'.term_cond.terminated ≡ false))
  unfolding update_termination Integrator.ah_since_full Integrator.mark_full
  rising_edge_zeroes now c = ground arith

  -- A bound of the pin: the filter is empty, or its average is in the range.
  module _ (P : F → Type 0) where
    abbrev pub FiltIn : Charger F → Type 0
    FiltIn c = (is_nan c.v_pin_filt.y ≡ true) ⊎ P c.v_pin_filt.y

    -- If the feedback has authority and a cell is at its end of charge on a new frame, and what it asks
    -- for is a number, the pin is the filter's average, and stays in any range that the filter's mix
    -- keeps and that has the larger one of any number and of `Vbat_fallback - vout_offset_max`.
    pub pinning_stays_in :
        (now : ℕ) (vbat : F) (c : Charger F)
        → Ewma.KeepsRange P c.v_pin_filt.alpha
        → ((a : F) → P (fmax a (pin_floor c)))
        → is_nan (raw_pin vbat c) ≡ false
        → bat_data_ok now c ≡ true
        → le (v_eoc c) c.bat_st.vcell_high ≡ true
        → c.bat_st.vcell_high_t ≢ c.last_bms_frame_us
        → FiltIn c
        → let c' = update_pack_voltage_pinning now true vbat c in
          (c'.vpack_pin ≡ c'.v_pin_filt.y) × P c'.vpack_pin
    unfolding update_pack_voltage_pinning
    pinning_stays_in now vbat c keeps floor raw d e fresh inside =
        let next : P (Ewma.step (raw_pin vbat c) c.v_pin_filt).y =
          Ewma.step-P P (raw_pin vbat c) c.v_pin_filt keeps raw (floor _) inside in
        let new_frame : (c.bat_st.vcell_high_t == c.last_bms_frame_us) ≡ false = ground arith in
        elim (Bool-cases c.term_cond.terminated) [
          | inl t ↦ elim (Bool-cases c.was_terminated) [
            | inl w ↦ rw (t, w, d, e, new_frame) (refl, next)
            | inr w ↦ rw (t, w, d, e, new_frame) (refl, next)
          ]
          | inr t ↦ elim (Bool-cases c.was_terminated) [
            | inl w ↦ rw (t, w, d, e, new_frame) (refl, next)
            | inr w ↦ rw (t, w, d, e, new_frame) (refl, next)
          ]
        ]
