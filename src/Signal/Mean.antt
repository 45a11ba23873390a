-- ===== src/Signal/Mean.antt =====
-- `MeanAccumulator` of src/math/statmath.h.
use fugu_mppt_firmware.Prelude.{ℕ, ◌+◌, Option, none, some, ltb, if◌then◌else◌}
use fugu_mppt_firmware.Prelude.Int.{pos}
use fugu_mppt_firmware.Float.{Float, f0}

pub record MeanAccumulator (F : Type 0) : Type 0 where
  pub sum : F
  pub num : ℕ  -- uint16_t

module _ {F : Type 0} ⦃fl : Float F⦄ where
  unfoldable pub get_mean : MeanAccumulator F → F
  get_mean m = fl.div m.sum (fl.of_int (pos m.num))

  unfoldable pub clear : MeanAccumulator F → MeanAccumulator F
  clear m = record m { sum = f0; num = 0 }

  -- `none` is the failed assertion on the counter's overflow.
  unfoldable pub add : F → MeanAccumulator F → Option (MeanAccumulator F)
  add x m =
      if ltb m.num 65535 then some (record m { sum = fl.add m.sum x; num = m.num + 1 }) else none

  unfoldable pub pop : MeanAccumulator F → F × MeanAccumulator F
  pop m = (get_mean m, clear m)
