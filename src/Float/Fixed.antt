-- ===== src/Float/Fixed.antt =====
-- Numbers with twelve decimal places, and a NaN: an instance of `Float` at which the model runs.
use fugu_mppt_firmware.Prelude.{
  ℕ, zero, suc, ◌+◌, ◌*◌, ◌/◌, ◌^◌, Bool, true, false, not, ◌||◌, Option, none, some, ltb,
  if◌then◌else◌, ◌≡◌, refl,
}
use fugu_mppt_firmware.Prelude.Int.{
  ℤ, pos, negsuc, pos_part, neg_part, sub_ℕ, ◌+ℤ◌, ◌-ℤ◌, ◌*ℤ◌, ltb_ℤ, div_ℤ,
}
use fugu_mppt_firmware.Float.{Float, IsRanked}

abbrev pub Fixed : Type 0
Fixed = Option ℤ

abbrev pub scale : ℕ
scale = 1_000_000_000_000

abbrev pub infinity : ℤ
infinity = pos 1_000_000_000_000_000_000_000_000

abbrev lift : (ℤ → ℤ → ℤ) → Fixed → Fixed → Fixed
lift f (some a) (some b) = some (f a b)
lift f _ _ = none

abbrev test : (ℤ → ℤ → Bool) → Fixed → Fixed → Bool
test f (some a) (some b) = f a b
test f _ _ = false

abbrev quotient : ℤ → ℤ → Fixed
quotient a (pos zero) = none
quotient a (pos (suc n)) = some (div_ℤ (a *ℤ pos scale) (suc n))
quotient a (negsuc n) = some (div_ℤ (pos 0 -ℤ a *ℤ pos scale) (suc n))

abbrev divide : Fixed → Fixed → Fixed
divide (some a) (some b) = quotient a b
divide _ _ = none

abbrev negate : Fixed → Fixed
negate (some a) = some (pos 0 -ℤ a)
negate none = none

abbrev magnitude : Fixed → Fixed
magnitude (some a) = some (pos (pos_part a + neg_part a))
magnitude none = none

abbrev lesser : Fixed → Fixed → Fixed
lesser (some a) (some b) = some (if ltb_ℤ b a then b else a)
lesser none b = b
lesser a none = a

abbrev greater : Fixed → Fixed → Fixed
greater (some a) (some b) = some (if ltb_ℤ a b then b else a)
greater none b = b
greater a none = a

abbrev whole : Fixed → ℤ
whole (some a) = div_ℤ a scale
whole none = pos 0

abbrev nearest : Fixed → ℤ
nearest (some (pos n)) = pos ((n + 500_000_000_000) / scale)
nearest (some (negsuc n)) = sub_ℕ 0 ((suc n + 500_000_000_000) / scale)
nearest none = pos 0

abbrev round_up : Fixed → Fixed
round_up (some (pos n)) = some (pos ((n + 999_999_999_999) / scale * scale))
round_up (some (negsuc n)) = some (sub_ℕ 0 (suc n / scale * scale))
round_up none = none

abbrev missing : Fixed → Bool
missing none = true
missing _ = false

abbrev finite : Fixed → Bool
finite (some a) = ltb (pos_part a + neg_part a) (pos_part infinity)
finite none = false

instance abbrev pub fixed_float : Float Fixed
fixed_float = record {
  add = lift ◌+ℤ◌;
  sub = lift ◌-ℤ◌;
  mul = lift (λ a b. div_ℤ (a *ℤ b) scale);
  div = divide;
  neg = negate;
  fabs = magnitude;
  lt = test ltb_ℤ;
  le = test (λ a b. not (ltb_ℤ b a));
  eq = test (λ a b. not (ltb_ℤ a b || ltb_ℤ b a));
  fmin = lesser;
  fmax = greater;
  nan = none;
  inf = some infinity;
  is_nan = missing;
  is_finite = finite;
  dec = λ m k. some (pos (m * scale / 10 ^ k));
  of_int = λ z. some (z *ℤ pos scale);
  to_int = whole;
  lround = nearest;
  ceil = round_up;
}

-- The number of so many millionths, for the inputs of the examples.
abbrev pub millionths : ℕ → Fixed
millionths n = some (pos (n * 1_000_000))

half_up : fixed_float.lround (millionths 1_500_000) ≡ pos 2
half_up = refl

abbrev rank_of : Fixed → ℤ
rank_of none = pos 0
rank_of (some a) = a

lt-rank_of :
    (a b : Fixed)
    → missing a ≡ false
    → missing b ≡ false
    → test ltb_ℤ a b ≡ ltb_ℤ (rank_of a) (rank_of b)
lt-rank_of none b p q = cc
lt-rank_of (some a) none p q = cc
lt-rank_of (some a) (some b) p q = refl

pub Fixed-IsRanked : IsRanked Fixed
Fixed-IsRanked = record { rank = rank_of; lt-rank = lt-rank_of }
