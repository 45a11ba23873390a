-- ===== src/Metering/Tests.antt =====
-- The energy store of src/store.h and src/metering.h at concrete inputs: the days have natural
-- numbers, which are stored in steps of ten.
use fugu_mppt_firmware.Prelude.{
  ℕ, ◌*◌, ◌/◌, map, ◌≡◌, ◌>>=◌, refl, Bool, true, false, ◌==◌, some, List, [], ◌∷◌,
}
use fugu_mppt_firmware.Float.Fixed.{Fixed, fixed_float, millionths}
use fugu_mppt_firmware.Metering.{PersistentState, SolarEnergyMeter}
use fugu_mppt_firmware.Metering.Flash.{FlashValueStore, update, updates, IsSpaced, updates-IsSpaced}
use fugu_mppt_firmware.Metering.Ring.{clear}
use fugu_mppt_firmware.Metering.Daily.{
  Day, day_shown, has_energy, zero_day, add_days, show_days, show_days-add_days,
}

-- A yield in Wh, stored in steps of 10 Wh.
abbrev day : ℕ → Day ℕ
day e = record {
  energy_yield = e;
  vin_max = 62;
  pin_max = 350;
  vout_max = 28;
  vout_min = 25;
  temp_max = some 41;
  usr = some 1;
  num_errors = 2;
}

abbrev is_none : ℕ → Bool
is_none e = e == 0

abbrev days : List (Day ℕ)
days = day 1_234 ∷ day 17 ∷ []

show_days-add_days_example :
    (add_days is_none 0
        (λ x. x / 10)
        (λ x. x * 10)
        days
        (clear (has_energy is_none 0) (zero_day is_none 0))
      >>= (λ r. some (show_days is_none 0 (λ x. x / 10) (λ x. x * 10) r)))
    ≡ some (map (day_shown is_none 0 (λ x. x / 10) (λ x. x * 10)) days)
show_days-add_days_example =
    show_days-add_days is_none 0 (λ x. x / 10) (λ x. x * 10) days refl (refl, (refl, _))

-- Written 1000 ms before the clock's wrap.
abbrev stored_early : FlashValueStore ℕ
stored_early = record {
  value_flash = 7;
  last_write = 4_294_966_296;
  min_write_interval_ms = 120_000;
}

-- The offers at 500 ms, 119 s and 300 s; the third one is too early behind the second write.
abbrev offers : List (ℕ × Bool × ℕ)
offers =
    (500, true, 8)
    ∷ (119_000, true, 9)
    ∷ (200_000, true, 10)
    ∷ (239_500, false, 11)
    ∷ (300_000, true, 12)
    ∷ []

write_times : (updates (λ a b. a == b) offers stored_early).1 ≡ 119_000 ∷ 300_000 ∷ []
unfolding updates update
write_times = refl

updates-IsSpaced_example :
    IsSpaced 120_000 4_294_966_296 (updates (λ a b. a == b) offers stored_early).1
updates-IsSpaced_example = updates-IsSpaced (λ a b. a == b) offers stored_early

abbrev saved : PersistentState Fixed
saved = record {
  boot_count = 3;
  total_energy = millionths 500_000_000;
  time_last_power = 0;
  today_energy = millionths 0;
}

abbrev meter : SolarEnergyMeter Fixed
meter = record {
  total_energy = record {
    time_factor = millionths 0;
    max_dt = 4_000_000;
    last_time = 0;
    last_x = millionths 0;
    value = millionths 500_000_000;
  };
  flash = record { value_flash = saved; last_write = 1_000; min_write_interval_ms = 120_000 };
  time_last_power = 0;
  today_energy = millionths 0;
}
