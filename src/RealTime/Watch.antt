-- ===== src/RealTime/Watch.antt =====
-- What the watchdogs of src/main.cpp have in common: a condition that was seen without a break.
use fugu_mppt_firmware.Prelude.{ℕ, ◌+◌, ◌-◌, ◌≡◌, ◌⊎◌, Bool, true, u64, List, [], ◌∷◌}

-- The difference of two times of 64 bits.
abbrev pub elapsed : (now since : ℕ) → ℕ
elapsed now since = u64 (now + 18446744073709551616 - since)

-- When the condition was looked at, and whether it held.
pub record Sight : Type 0 where
  pub at : ℕ
  pub holds : Bool

-- The condition held at `t` and at every later sight; the latest comes first.
abbrev pub IsSince : ℕ → List Sight → Type 0
IsSince t [] = ⊥
IsSince t (x ∷ xs) = (x.holds ≡ true) × ((x.at ≡ t) ⊎ IsSince t xs)
