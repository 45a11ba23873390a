-- ===== src/Signal/Median.antt =====
-- The medians of src/math/statmath.h: `median_of_three`, `median` of three and of five, and the
-- running medians over the last three and five samples.
use fugu_mppt_firmware.Prelude.{
  ℕ, ◌+◌, ◌%◌, ◌≡◌, ◌⊎◌, false, arith, if◌then◌else◌, List, [], ◌∷◌, get_or, set,
}
use fugu_mppt_firmware.Prelude.Int.{◌≤ℤ◌}
use fugu_mppt_firmware.Float.{Float, IsRanked, std_min, std_max}

pub record RunningMedian3 (F : Type 0) : Type 0 where
  pub s1 : F
  pub s2 : F
  pub last : F

pub record RunningMedian5 (F : Type 0) : Type 0 where
  pub b : List F  -- five samples
  pub last : F
  pub pos : ℕ  -- uint8_t

module _ {F : Type 0} ⦃fl : Float F⦄ where
  open fl use {lt, nan, is_nan}

  -- `median_of_three` with the comparison `greaterThan`.
  unfoldable pub median_of_three : F → F → F → F
  median_of_three a b c =
      if lt b a
      then (if lt c b then b else (if lt c a then c else a))
      else (if lt b c then b else (if lt a c then c else a))

  unfoldable pub median3 : F → F → F → F
  median3 a b c = std_max (std_min a b) (std_min c (std_max a b))

  unfoldable pub median5 : F → F → F → F → F → F
  unfolding median3
  median5 a b c d e =
      let f = std_max (std_min a b) (std_min c d) in
      let g = std_min (std_max a b) (std_max c d) in median3 e f g

  unfoldable pub next3 : F → RunningMedian3 F → RunningMedian3 F
  unfolding median_of_three
  next3 s r = let m = median_of_three s r.s1 r.s2 in record { s1 = s; s2 = r.s1; last = m }

  unfoldable pub reset3 : RunningMedian3 F → RunningMedian3 F
  reset3 r = record { s1 = nan; s2 = nan; last = nan }

  abbrev at : List F → ℕ → F
  at b i = get_or b i nan

  unfoldable pub next5 : F → RunningMedian5 F → RunningMedian5 F
  unfolding median5
  next5 s r =
      let b = set r.b r.pos s in
      record {
        b = b;
        last = median5 (at b 0) (at b 1) (at b 2) (at b 3) (at b 4);
        pos = (r.pos + 1) % 5;
      }

  -- The position is left as it is.
  unfoldable pub reset5 : RunningMedian5 F → RunningMedian5 F
  reset5 r = record r { b = nan ∷ nan ∷ nan ∷ nan ∷ nan ∷ []; last = nan }

  module _ (ranked : IsRanked F) where
    open ranked use {rank, lt-rank}

    infix 4 ◌≼◌
    abbrev ◌≼◌ : F → F → Type 0
    a ≼ b = rank a ≤ℤ rank b

    -- Of three numbers `median_of_three` returns one that has another at or below it and another at
    -- or above it.
    pub median_of_three_lem :
        (a b c : F)
        → is_nan a ≡ false
        → is_nan b ≡ false
        → is_nan c ≡ false
        → let m = median_of_three a b c in
          ((m ≡ a) × (((b ≼ a) × (a ≼ c)) ⊎ ((c ≼ a) × (a ≼ b))))
          ⊎ (((m ≡ b) × (((a ≼ b) × (b ≼ c)) ⊎ ((c ≼ b) × (b ≼ a))))
              ⊎ ((m ≡ c) × (((a ≼ c) × (c ≼ b)) ⊎ ((b ≼ c) × (c ≼ a)))))
    unfolding median_of_three
    median_of_three_lem a b c p q r =
        ground (
          arith,
          lt-rank b a q p,
          lt-rank c b r q,
          lt-rank c a r p,
          lt-rank b c q r,
          lt-rank a c p r,
        )
