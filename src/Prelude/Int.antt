-- ===== src/Prelude/Int.antt =====
-- Signed integers over the native numbers: C's `int` where it does not overflow, its narrowing to
-- `uint16_t` and `int16_t`, its division, and Arduino's `constrain`.
use fugu_mppt_firmware.Prelude.{
  ℕ, suc, ◌+◌, ◌-◌, ◌*◌, ◌/◌, ◌%◌, ◌≤◌, ◌<◌, ◌≡◌, refl, Bool, arith, ltb, leb, u16, if◌then◌else◌,
}

-- `negsuc n` is -(n + 1).
pub data ℤ : Type 0 where
  pos : ℕ → ℤ
  negsuc : ℕ → ℤ

abbrev pub pos_part : ℤ → ℕ
pos_part (pos n) = n
pos_part (negsuc n) = 0

abbrev pub neg_part : ℤ → ℕ
neg_part (pos n) = 0
neg_part (negsuc n) = suc n

-- a - b, as an integer.
abbrev pub sub_ℕ : ℕ → ℕ → ℤ
sub_ℕ a b = if leb b a then pos (a - b) else negsuc (b - a - 1)

infixl 65 ◌+ℤ◌ ◌-ℤ◌
infixl 70 ◌*ℤ◌
infix 50 ◌≤ℤ◌
abbrev pub ◌+ℤ◌ : ℤ → ℤ → ℤ
a +ℤ b = sub_ℕ (pos_part a + pos_part b) (neg_part a + neg_part b)

abbrev pub ◌-ℤ◌ : ℤ → ℤ → ℤ
a -ℤ b = sub_ℕ (pos_part a + neg_part b) (neg_part a + pos_part b)

abbrev pub ◌*ℤ◌ : ℤ → ℤ → ℤ
a *ℤ b =
    sub_ℕ (pos_part a * pos_part b + neg_part a * neg_part b)
      (pos_part a * neg_part b + neg_part a * pos_part b)

abbrev pub ◌≤ℤ◌ : ℤ → ℤ → Type 0
a ≤ℤ b = pos_part a + neg_part b ≤ pos_part b + neg_part a

abbrev pub ltb_ℤ : ℤ → ℤ → Bool
ltb_ℤ a b = ltb (pos_part a + neg_part b) (pos_part b + neg_part a)

-- C's `/` on `int`: the quotient is rounded towards zero. The divisor is positive.
abbrev pub div_ℤ : ℤ → ℕ → ℤ
div_ℤ (pos n) d = pos (n / d)
div_ℤ (negsuc n) d = sub_ℕ 0 (suc n / d)

-- The conversion of an `int` to `uint16_t`.
abbrev pub u16_of_int : ℤ → ℕ
u16_of_int (pos n) = u16 n
u16_of_int (negsuc n) = u16 (65535 - n % 65536)

-- The narrowing to `int16_t`.
abbrev pub i16_of_int : ℤ → ℤ
i16_of_int z = let w = u16_of_int z in if ltb w 32768 then pos w else negsuc (65535 - w)

-- `constrain(amt, low, high)` of `Arduino.h`, as test/host-stub/mock.h spells it.
unfoldable pub constrain : ℤ → ℤ → ℤ → ℤ
constrain amt low high = if ltb_ℤ amt low then low else if ltb_ℤ high amt then high else amt

-- `constrain` keeps a natural range, whatever the amount is.
pub constrain-range :
    (amt : ℤ) (low high : ℕ)
    → low ≤ high
    → high < 65536
    → let out = u16_of_int (constrain amt (pos low) (pos high)) in (low ≤ out) × (out ≤ high)
unfolding constrain
constrain-range (pos n) low high h w = ground arith
constrain-range (negsuc n) low high h w = ground arith

pub sub_ℕ-pos : (a b : ℕ) → b ≤ a → sub_ℕ a b ≡ pos (a - b)
sub_ℕ-pos a b h = ground arith

wraps : u16_of_int (negsuc 0) ≡ 65535
wraps = refl

truncates : div_ℤ (negsuc 6) 2 ≡ negsuc 2
truncates = refl
