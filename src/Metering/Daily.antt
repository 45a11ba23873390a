-- ===== src/Metering/Daily.antt =====
-- `DailyEnergyMeterState` and `DailyRingStorage` of src/metering.h: the days in the ring have
-- half-precision numbers, those that are added and shown have floats. `narrow` and `widen` are the
-- conversions of the library `float16` and `is_zero` is its test, parameters of the model.
use fugu_mppt_firmware.Prelude.{
  ℕ, zero, suc, ◌-◌, ◌≡◌, refl, ap, Bool, true, false, not, Option, none, some, List, [], ◌∷◌,
  length, length-map, All, map, ◌>>=◌, arith,
}
use fugu_mppt_firmware.Metering.Ring.{Ring, clear, add, adds, get_all_days}
use fugu_mppt_firmware.Metering.Window.{drop, get_all_days-adds}

-- A member without a value, because the constructor that converts leaves it out, is `none`.
pub record Day (N : Type 0) : Type 0 where
  pub energy_yield : N
  pub vin_max : N
  pub pin_max : N
  pub vout_max : N
  pub vout_min : N
  pub temp_max : Option ℕ  -- uint8_t
  pub usr : Option ℕ  -- uint8_t
  pub num_errors : ℕ  -- uint8_t

-- The constructor from a state of the other number type.
unfoldable pub convert : {N M : Type 0} → (N → M) → Day N → Day M
convert f d = record {
  energy_yield = f d.energy_yield;
  vin_max = f d.vin_max;
  pin_max = f d.pin_max;
  vout_max = f d.vout_max;
  vout_min = f d.vout_min;
  temp_max = none;
  usr = none;
  num_errors = d.num_errors;
}

map-drop :
    {A B C : Type 0} (f : A → B) (g : B → C) (h : A → C) (n : ℕ) (xs : List A)
    → ((x : A) → g (f x) ≡ h x)
    → map g (drop n (map f xs)) ≡ map h (drop n xs)
map-drop f g h zero [] e = refl
map-drop f g h zero (x ∷ xs) e = rw (e x, map-drop f g h zero xs e) refl
map-drop f g h (suc n) [] e = refl
map-drop f g h (suc n) (x ∷ xs) e = map-drop f g h n xs e

module _ {H : Type 0} (is_zero : H → Bool) (zeros : H) where
  abbrev pub has_energy : Day H → Bool
  has_energy d = not (is_zero d.energy_yield)

  -- The day whose bytes are 0; `zeros` is the number whose bytes are.
  abbrev pub zero_day : Day H
  zero_day = record {
    energy_yield = zeros;
    vin_max = zeros;
    pin_max = zeros;
    vout_max = zeros;
    vout_min = zeros;
    temp_max = some 0;
    usr = some 0;
    num_errors = 0;
  }

  module _ {F : Type 0} (narrow : F → H) (widen : H → F) where
    -- `DailyRingStorage::add` without the file's update; `none` is the failed assertion.
    unfoldable pub add_day : Day F → Ring (Day H) → Option (Ring (Day H))
    add_day day r = add has_energy zero_day (convert narrow day) r

    unfoldable pub add_days : List (Day F) → Ring (Day H) → Option (Ring (Day H))
    add_days [] r = some r
    add_days (d ∷ ds) r = add_day d r >>= add_days ds

    unfoldable pub show_days : Ring (Day H) → List (Day F)
    show_days r = get_all_days has_energy zero_day (convert widen) r

    -- The day as it is shown: rounded to half precision, without the members that the conversions leave out.
    abbrev pub day_shown : Day F → Day F
    day_shown d = record {
      energy_yield = widen (narrow d.energy_yield);
      vin_max = widen (narrow d.vin_max);
      pin_max = widen (narrow d.pin_max);
      vout_max = widen (narrow d.vout_max);
      vout_min = widen (narrow d.vout_min);
      temp_max = none;
      usr = none;
      num_errors = d.num_errors;
    }

    add_days-adds :
        (ds : List (Day F)) (r : Ring (Day H))
        → add_days ds r ≡ adds has_energy zero_day (map (convert narrow) ds) r
    unfolding add_days add_day adds
    add_days-adds [] r = refl
    add_days-adds (d ∷ ds) r =
        ap
          (λ (next : Ring (Day H) → Option (Ring (Day H))).
            add has_energy zero_day (convert narrow d) r >>= next)
          (λ i r1. add_days-adds ds r1 i)

    narrowed-All :
        (ds : List (Day F))
        → All (λ d. is_zero (narrow d.energy_yield) ≡ false) ds
        → All (λ d. has_energy d ≡ true) (map (convert narrow) ds)
    unfolding convert
    narrowed-All [] h = _
    narrowed-All (d ∷ ds) h = (ground (arith, h.0), narrowed-All ds h.1)

    -- If days whose energy is not zero as a half-precision number are added to an empty ring, however
    -- many, what `getAllDays` shows are the last sixty of them in their order: with their numbers rounded
    -- to half precision, their count of errors, and no value for `tempMax` and `usr`. The
    -- number whose bytes are 0 is zero for the library's test.
    pub show_days-add_days :
        (ds : List (Day F))
        → is_zero zeros ≡ true
        → All (λ d. is_zero (narrow d.energy_yield) ≡ false) ds
        → (add_days ds (clear has_energy zero_day) >>= (λ r. some (show_days r)))
          ≡ some (map day_shown (drop (length ds - 60) ds))
    unfolding show_days
    show_days-add_days ds z h =
        rw
          (
            add_days-adds ds (clear has_energy zero_day),
            get_all_days-adds has_energy zero_day (convert widen) (map (convert narrow) ds)
                (ground (arith, z)) (narrowed-All ds h),
            length-map (convert narrow) ds,
          )
          (ap some (
            map-drop (convert narrow) (convert widen) day_shown (length ds - 60) ds
              (λ d. (unfold convert in refl))))
