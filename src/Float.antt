-- ===== src/Float.antt =====
-- The C type `float` (and `double` where the code promotes to it): a parameter of the model. The
-- firmware is modelled over any type with these operations of C and `<cmath>`; where a theorem needs a
-- law of IEEE arithmetic, the law is a hypothesis of that theorem. `Fixed` is an instance.
pub mod Fixed
use fugu_mppt_firmware.Prelude.{ℕ, Bool, false, ◌≡◌, if◌then◌else◌}
use fugu_mppt_firmware.Prelude.Int.{ℤ, ltb_ℤ}

pub record Float (F : Type 0) : Type 0 where
  pub add : F → F → F
  pub sub : F → F → F
  pub mul : F → F → F
  pub div : F → F → F
  pub neg : F → F
  pub fabs : F → F
  -- `<`, `<=` and `==`, which are false if a side is NaN
  pub lt : F → F → Bool
  pub le : F → F → Bool
  pub eq : F → F → Bool
  -- `fminf` and `fmaxf`, which pass over a NaN
  pub fmin : F → F → F
  pub fmax : F → F → F
  pub nan : F
  pub inf : F
  pub is_nan : F → Bool
  pub is_finite : F → Bool
  -- the literal m * 10^-k, and the conversions from and to integers
  pub dec : ℕ → ℕ → F
  pub of_int : ℤ → F
  pub to_int : F → ℤ
  pub lround : F → ℤ
  pub ceil : F → F

module _ {F : Type 0} ⦃fl : Float F⦄ where
  open fl use {lt, dec}

  -- `std::min` and `std::max`, by the comparison that the standard prescribes.
  abbrev pub std_min : F → F → F
  std_min a b = if lt b a then b else a

  abbrev pub std_max : F → F → F
  std_max a b = if lt a b then b else a

  -- `constrain` of `Arduino.h` at `float`, as test/host-stub/mock.h spells it.
  abbrev pub fconstrain : F → F → F → F
  fconstrain amt low high = if lt amt low then low else if lt high amt then high else amt

  abbrev pub f0 : F
  f0 = dec 0 0

  abbrev pub f1 : F
  f1 = dec 1 0

-- Away from NaN the order of floating-point numbers is total: it is that of some integer, their rank.
pub record IsRanked (F : Type 0) ⦃fl : Float F⦄ : Type 0 where
  pub rank : F → ℤ
  pub lt-rank :
      (a b : F) → fl.is_nan a ≡ false → fl.is_nan b ≡ false → fl.lt a b ≡ ltb_ℤ (rank a) (rank b)
