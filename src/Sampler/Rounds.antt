-- ===== src/Sampler/Rounds.antt =====
-- The polls of src/adc/sampling.h: a multiplexed converter's samples go to the sensors that they are of,
-- and a converter that is not good is reported whatever the others give.
use fugu_mppt_firmware.Prelude.{
  ℕ, zero, suc, ◌+◌, ◌-◌, ◌%◌, ◌≤◌, ◌<◌, ◌≡◌, refl, sym, ap, subst, ◌∙◌, ltb, if_cases, Option,
  some, List, [], ◌∷◌, ◌++◌, length, length-append, ◌>>=◌, map, All, get_or, arith,
}
use mathlib.Core.List.{append_assoc}
use native.Mathlib.Nat as Modulo
use fugu_mppt_firmware.Sampler.Cycle.{
  interleave, upto, build_cycle_order, length-interleave, length-upto,
}
use fugu_mppt_firmware.Sampler.Polling.{vin_slot, begin_cycle, Slot, AdcState, nth, advance}

-- The credits of so many polls that have data: the sensor that got the sample and the sampled channel.
unfoldable pub advances : ℕ → AdcState → Option (List (Slot × ℕ) × AdcState)
advances zero st = some ([], st)
advances (suc n) st = advance st >>= (λ r. advances n r.1 >>= (λ rest. some (r.0 ∷ rest.0, rest.1)))

nth-append : {A : Type 0} (xs ys : List A) (y : A) → nth (xs ++ y ∷ ys) (length xs) ≡ some y
nth-append [] ys y = refl
nth-append (x ∷ xs) ys y = nth-append xs ys y

-- The converter before the poll of place `pos`.
abbrev pub at_place : AdcState → ℕ → ℕ → AdcState
at_place st pos ch = record st { cycle_pos = pos; started = ch }

-- The sensors at the places of the order, with their channels.
abbrev pub Finds : (look : ℕ → Slot × ℕ) → List (Slot × ℕ) → List ℕ → Type 0
Finds look sensors order = All (λ i. nth sensors i ≡ some (look i)) order

mod_self : (n : ℕ) → n % n % 256 ≡ 0
mod_self n = ap (λ k. k % 256) (Modulo.mod_self n)

mod_small : (a m : ℕ) → a < m → m < 256 → a % m % 256 ≡ a
mod_small a m h w = ap (λ k. k % 256) (Modulo.mod-eq_of_lt h) ∙ (omega (arith, h, w))

advance-next :
    (look : ℕ → Slot × ℕ) (st : AdcState) (pre rest : List ℕ) (i j : ℕ)
    → st.cycle_order ≡ pre ++ i ∷ j ∷ rest
    → length st.cycle_order < 256
    → nth st.cycle_sensors i ≡ some (look i)
    → nth st.cycle_sensors j ≡ some (look j)
    → advance (at_place st (length pre) (look i).1)
      ≡ some (look i, at_place st (length (pre ++ i ∷ [])) (look j).1)
unfolding advance
advance-next look st pre rest i j o small fi fj =
    let here : nth st.cycle_order (length pre) ≡ some i = rw o (nth-append pre (j ∷ rest) i) in
    let size : length st.cycle_order ≡ length pre + length (i ∷ j ∷ rest) =
      ap length o ∙ length-append pre (i ∷ j ∷ rest) in
    let place : (length pre + 1) % length st.cycle_order % 256 ≡ length (pre ++ i ∷ []) =
      mod_small (length pre + 1) (length st.cycle_order) (omega (arith, size)) small
      ∙ sym (length-append pre (i ∷ [])) in
    let split : st.cycle_order ≡ (pre ++ i ∷ []) ++ j ∷ rest =
      o ∙ sym (append_assoc pre (i ∷ []) (j ∷ rest)) in
    let there : nth st.cycle_order (length (pre ++ i ∷ [])) ≡ some j =
      rw split (nth-append (pre ++ i ∷ []) rest j) in
    rw (here, fi, place, there, fj) refl

advance-wraps :
    (look : ℕ → Slot × ℕ) (st : AdcState) (pre rest : List ℕ) (i j : ℕ)
    → st.cycle_order ≡ pre ++ i ∷ []
    → st.cycle_order ≡ j ∷ rest
    → nth st.cycle_sensors i ≡ some (look i)
    → nth st.cycle_sensors j ≡ some (look j)
    → advance (at_place st (length pre) (look i).1) ≡ some (look i, at_place st 0 (look j).1)
unfolding advance
advance-wraps look st pre rest i j o o' fi fj =
    let here : nth st.cycle_order (length pre) ≡ some i = rw o (nth-append pre [] i) in
    let size : length st.cycle_order ≡ length pre + length (i ∷ []) =
      ap length o ∙ length-append pre (i ∷ []) in
    let place : (length pre + 1) % length st.cycle_order % 256 ≡ 0 =
      ap (λ n. (length pre + 1) % n % 256) size ∙ mod_self (length pre + 1) in
    let there : nth st.cycle_order 0 ≡ some j = ap (λ l. nth l 0) o' in
    rw (here, fi, place, there, fj) refl

advances-from :
    (look : ℕ → Slot × ℕ) (st : AdcState) (first : ℕ) (others pre rest : List ℕ) (i : ℕ)
    → st.cycle_order ≡ first ∷ others
    → length st.cycle_order < 256
    → nth st.cycle_sensors first ≡ some (look first)
    → Finds look st.cycle_sensors (i ∷ rest)
    → st.cycle_order ≡ pre ++ i ∷ rest
    → advances (length (i ∷ rest)) (at_place st (length pre) (look i).1)
      ≡ some (map look (i ∷ rest), at_place st 0 (look first).1)
unfolding advances
advances-from look st first others pre [] i o small f all cut =
    rw (advance-wraps look st pre others i first cut o all.0 f) refl
advances-from look st first others pre (j ∷ rest) i o small f all cut =
    let split = cut ∙ sym (append_assoc pre (i ∷ []) (j ∷ rest)) in
    rw
      (
        advance-next look st pre rest i j cut small all.0 all.1.0,
        advances-from look st first others (pre ++ i ∷ []) rest j o small f all.1 split,
      )
      refl

-- A multiplexed converter at the start of its order, of less than 256 places, whose first channel is
-- started: in as many polls with data as the order has places, the sensors of the order get one sample
-- each, in their order and of their own channel, and the converter is at the start again.
pub advances-order :
    (look : ℕ → Slot × ℕ) (st : AdcState) (first : ℕ) (others : List ℕ)
    → st.cycle_order ≡ first ∷ others
    → length st.cycle_order < 256
    → Finds look st.cycle_sensors (first ∷ others)
    → st.cycle_pos ≡ 0
    → st.started ≡ (look first).1
    → advances (length st.cycle_order) st ≡ some (map look st.cycle_order, st)
advances-order look st first others o small all zero_ begun =
    let same : at_place st 0 (look first).1 ≡ st = rw (← zero_, ← begun) refl in
    let round = advances-from look st first others [] others first o small all.0 all o in
    subst (λ l. advances (length l) st ≡ some (map look l, st)) (sym o) (rw same at round)

interleave-below :
    (count from vout bound : ℕ)
    → from + count ≤ bound
    → vout < bound
    → All (λ i. i < bound) (interleave count from vout)
unfolding interleave
interleave-below zero from vout bound h w = _
interleave-below (suc count) from vout bound h w =
    (omega (arith, h), (w, interleave-below count (suc from) vout bound (omega (arith, h)) w))

upto-below : (count from bound : ℕ) → from + count ≤ bound → All (λ i. i < bound) (upto count from)
unfolding upto
upto-below zero from bound h = _
upto-below (suc count) from bound h =
    (omega (arith, h), upto-below count (suc from) bound (omega (arith, h)))

order-below : (n : ℕ) → 0 < n → n ≤ 128 → All (λ i. i < n) (build_cycle_order n)
unfolding build_cycle_order
order-below n some_ few =
    let same : n % 256 ≡ n = omega (arith, few) in
    rw same (
      if_cases (All (λ i. i < n)) (ltb 2 n)
        (λ _. interleave-below (n - 1) 0 (n - 1) n (omega (arith, some_)) (omega (arith, some_)))
        (λ _. upto-below n 0 n (omega arith)))

order-fits : (n : ℕ) → n ≤ 128 → length (build_cycle_order n) < 256
unfolding build_cycle_order
order-fits n few =
    let same : n % 256 ≡ n = omega (arith, few) in
    rw same (
      if_cases (λ (l : List ℕ). length l < 256) (ltb 2 n)
        (λ _. omega (arith, length-interleave (n - 1) 0 (n - 1), few))
        (λ _. omega (arith, length-upto n 0, few)))

order-filled : (n : ℕ) → 0 < n → n ≤ 128 → 0 < length (build_cycle_order n)
unfolding build_cycle_order
order-filled n some_ few =
    let same : n % 256 ≡ n = omega (arith, few) in
    rw same (
      if_cases (λ (l : List ℕ). 0 < length l) (ltb 2 n)
        (λ many. ground (arith, length-interleave (n - 1) 0 (n - 1)))
        (λ _. omega (arith, length-upto n 0, some_)))

-- The sensor at a place, with its channel.
abbrev pub sensor_at : List (Slot × ℕ) → ℕ → Slot × ℕ
sensor_at sensors i = get_or sensors i (vin_slot, 0)

nth-get_or :
    (sensors : List (Slot × ℕ)) (i : ℕ)
    → i < length sensors
    → nth sensors i ≡ some (sensor_at sensors i)
nth-get_or [] i h = absurd (omega (arith, h))
nth-get_or (s ∷ ss) zero h = refl
nth-get_or (s ∷ ss) (suc i) h = nth-get_or ss i (omega (arith, h))

below-Finds :
    (sensors : List (Slot × ℕ)) (order : List ℕ)
    → All (λ i. i < length sensors) order
    → Finds (sensor_at sensors) sensors order
below-Finds sensors [] h = _
below-Finds sensors (i ∷ order) h = (nth-get_or sensors i h.0, below-Finds sensors order h.1)

begin-order :
    (st : AdcState) (order : List ℕ)
    → 0 < length order
    → length order < 256
    → Finds (sensor_at st.cycle_sensors) st.cycle_sensors order
    → (st' : AdcState) × ((nth order 0 >>= (λ i.
          nth st.cycle_sensors i
          >>= (λ s. some (record st { cycle_order = order; cycle_pos = 0; started = s.1 }))))
        ≡ some st')
      × (advances (length order) st' ≡ some (map (sensor_at st.cycle_sensors) order, st'))
begin-order st [] h fits finds = absurd (omega (arith, h))
begin-order st (i ∷ others) h fits finds =
    let look = sensor_at st.cycle_sensors in
    let st' : AdcState = record st {
      cycle_order = i ∷ others;
      cycle_pos = 0;
      started = (look i).1;
    } in
    (st', rw finds.0 refl, advances-order look st' i others refl fits finds refl refl)

-- `begin` starts a multiplexed converter with up to 128 sensors. In as many polls with data as its order
-- has places, the sensors get one sample for each of their places, in the order and each of its own
-- channel, and then the converter is where it was.
pub begin_cycle-advances :
    (st : AdcState)
    → 0 < length st.cycle_sensors
    → length st.cycle_sensors ≤ 128
    → let order = build_cycle_order (length st.cycle_sensors) in
      (st' : AdcState) × (begin_cycle st ≡ some st')
      × (advances (length order) st' ≡ some (map (sensor_at st.cycle_sensors) order, st'))
unfolding begin_cycle
begin_cycle-advances st some_ few =
    let n = length st.cycle_sensors in
    begin-order st (build_cycle_order n) (order-filled n some_ few) (order-fits n few)
      (below-Finds st.cycle_sensors (build_cycle_order n) (order-below n some_ few))
