-- ===== src/Charger/Params.antt =====
-- `struct BatChargerParams` of src/charger.h and its `load` from `charger.conf`.
use Prim.Native.String.{String}
use mathlib.Core.Option.{some-injective}
use fugu_mppt_firmware.Prelude.{
  ℕ, ◌≡◌, ◌<◌, Bool, true, ◌&&◌, arith, ltb, u8, Option, none, some, if◌then◌else◌, Bool-cases,
  subst, inl, inr,
}
use fugu_mppt_firmware.Prelude.Int.{pos, pos_part}
use fugu_mppt_firmware.Float.{Float, f0}

pub record Params (F : Type 0) : Type 0 where
  pub vbat_max : F
  pub vbat_fallback : F
  pub ibat_lim : F
  pub cbat : F
  pub cv_min : F
  pub cv_eoc : F
  pub cv_ceiling : F
  pub n_cells : ℕ  -- uint8_t
  pub tail_c_rate : F
  pub recharge_dod : F
  pub recharge_vfloor_band : F
  pub vout_offset_max : F

-- The values that a configuration file gives.
abbrev pub Conf : Type 0 → Type 0
Conf F = String → Option F

abbrev pub get_float : {F : Type 0} → Conf F → String → F → F
get_float conf key default = elim (conf key) [ none ↦ default | some v ↦ v ]

module _ {F : Type 0} ⦃fl : Float F⦄ where
  open fl use {add, mul, div, lt, le, nan, dec, of_int, to_int, is_finite}

  -- `haveVbatMax`: a voltage that is not finite or not positive is not identified yet.
  unfoldable pub have_vbat_max : Params F → Bool
  have_vbat_max p = is_finite p.vbat_max && lt f0 p.vbat_max

  abbrev loaded : Conf F → Params F → Params F
  loaded conf p =
      let vbat_max = get_float conf "vout_max" nan in
      let cv_eoc = get_float conf "cv_eoc" (dec 35 1) in
      let cv_min = get_float conf "cv_float" (dec 3325 3) in
      let n_cells = u8 (pos_part (to_int (div vbat_max cv_eoc))) in
      record p {
        vbat_max = vbat_max;
        cv_eoc = cv_eoc;
        cv_min = cv_min;
        cv_ceiling = get_float conf "cv_ceiling" (add cv_eoc (dec 5 2));
        n_cells = n_cells;
        vbat_fallback = get_float conf "vout_max_fallback" (mul (of_int (pos n_cells)) cv_min);
        ibat_lim = get_float conf "ibat_max" (dec 20 0);
        cbat = get_float conf "bat_c" nan;
        tail_c_rate = get_float conf "tail_c_rate" (dec 5 2);
        recharge_dod = get_float conf "recharge_dod" (dec 20 2);
        recharge_vfloor_band = get_float conf "recharge_vfloor_band" (dec 5 2);
        vout_offset_max = get_float conf "vout_offset_max" (dec 6 1);
      }

  -- The assertions of `load`.
  abbrev accepted : Params F → Bool
  accepted p =
      le p.cv_min p.cv_eoc
      && le p.cv_eoc p.cv_ceiling
      && have_vbat_max p
      && ltb 0 p.n_cells
      && lt f0 p.tail_c_rate
      && le f0 p.recharge_vfloor_band
      && le f0 p.vout_offset_max

  -- `none` is the exception of a failed assertion. (The members that were set before it are not
  -- looked at again: the exception stops the start-up.)
  unfoldable pub load : Conf F → Params F → Option (Params F)
  load conf p = let q = loaded conf p in if accepted q then some q else none

  abbrev pub IsCoherent : Params F → Type 0
  IsCoherent q =
      (le q.cv_min q.cv_eoc ≡ true)
      × (le q.cv_eoc q.cv_ceiling ≡ true)
      × (have_vbat_max q ≡ true)
      × (0 < q.n_cells)
      × (lt f0 q.tail_c_rate ≡ true)
      × (le f0 q.vout_offset_max ≡ true)

  accepted_lem : (q : Params F) → accepted q ≡ true → IsCoherent q
  accepted_lem q h = ground arith

  -- A configuration that is loaded without an exception satisfies: the termination line runs upwards,
  -- at a positive rate, and ends at the ceiling at most, the offset is not negative, and there is a
  -- battery voltage and at least one cell.
  pub load_lem : (conf : Conf F) (p q : Params F) → load conf p ≡ some q → IsCoherent q
  unfolding load
  load_lem conf p q h = elim (Bool-cases (accepted (loaded conf p))) [
    | inl ok ↦
        let same : loaded conf p ≡ q = some-injective _ _ (rw ok at h) in
        subst IsCoherent same (accepted_lem (loaded conf p) ok)
    | inr bad ↦ absurd (ground arith)
  ]
