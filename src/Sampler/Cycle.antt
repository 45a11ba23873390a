-- ===== src/Sampler/Cycle.antt =====
-- `ADC_Sampler::buildCycleOrder` of src/adc/sampling.h: the poll order of a multiplexed converter.
use fugu_mppt_firmware.Prelude.{
  ℕ, zero, suc, ◌+◌, ◌*◌, ◌-◌, ◌%◌, ◌<◌, ◌≡◌, refl, true, arith, u8, ltb, if◌then◌else◌, List, [],
  ◌∷◌, length, get_or,
}

-- `for (i = from; i < from + count; ++i) { push(i); push(vout); }`
unfoldable pub interleave : (count from vout : ℕ) → List ℕ
interleave zero from vout = []
interleave (suc count) from vout = from ∷ vout ∷ interleave count (suc from) vout

unfoldable pub upto : (count from : ℕ) → List ℕ
upto zero from = []
upto (suc count) from = from ∷ upto count (suc from)

-- From the number of sensors.
unfoldable pub build_cycle_order : ℕ → List ℕ
build_cycle_order size =
    let n = u8 size in if ltb 2 n then interleave (n - 1) 0 (n - 1) else upto n 0

pub length-interleave : (count from vout : ℕ) → length (interleave count from vout) ≡ count * 2
unfolding interleave
length-interleave zero from vout = refl
length-interleave (suc count) from vout = omega (arith, length-interleave count (suc from) vout)

pub length-upto : (count from : ℕ) → length (upto count from) ≡ count
unfolding upto
length-upto zero from = refl
length-upto (suc count) from = omega (arith, length-upto count (suc from))

get-interleave :
    (count from vout i : ℕ)
    → i < count
    → (get_or (interleave count from vout) (i * 2) 0 ≡ from + i)
      × (get_or (interleave count from vout) (suc (i * 2)) 0 ≡ vout)
unfolding interleave
get-interleave zero from vout i h = absurd (omega arith)
get-interleave (suc count) from vout zero h = (omega arith, refl)
get-interleave (suc count) from vout (suc i) h =
    let rest = get-interleave count (suc from) vout i (omega arith) in
    let twice : suc i * 2 ≡ suc (suc (i * 2)) = omega arith in
    rw twice (omega (arith, rest.0), rest.1)

-- With three sensors or more the last one, the output voltage, is at every odd place of the order and
-- the i-th other one at place 2 i: the output voltage is read every second time, and every sensor is
-- read.
pub build_cycle_order_lem :
    (n i : ℕ)
    → 2 < n
    → n < 256
    → i + 1 < n
    → (length (build_cycle_order n) ≡ (n - 1) * 2)
      × (get_or (build_cycle_order n) (i * 2) 0 ≡ i)
      × (get_or (build_cycle_order n) (suc (i * 2)) 0 ≡ n - 1)
unfolding build_cycle_order
build_cycle_order_lem n i many small h =
    let same : n % 256 ≡ n = omega arith in
    let order = get-interleave (n - 1) 0 (n - 1) i (omega arith) in
    let at_two : ltb 2 n ≡ true = ground arith in
    rw (same, at_two) (length-interleave (n - 1) 0 (n - 1), omega (arith, order.0), order.1)
