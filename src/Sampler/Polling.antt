-- ===== src/Sampler/Polling.antt =====
-- The polling of `ADC_Sampler` of src/adc/sampling.h: `_addSensorSample`, `_updateAdc` and `update`, over
-- what the drivers of the converters give. The retuning of the notch filters and the warning of the
-- de-spiker are left out.
use fugu_mppt_firmware.Prelude.{
  ℕ, zero, suc, ◌+◌, ◌%◌, Bool, true, false, ◌&&◌, ◌||◌, not, ◌==◌, ltb, u8, if◌then◌else◌, Option,
  none, some, List, [], ◌∷◌, length, ◌>>=◌, map,
}
use fugu_mppt_firmware.Float.{Float}
use fugu_mppt_firmware.Sampler.{Sensor, Sampler}
use fugu_mppt_firmware.Sampler.Sensing.{add_sample}
use fugu_mppt_firmware.Sampler.Cycle.{build_cycle_order}
use fugu_mppt_firmware.Sampler.Calibrating.{
  UpdateRet, no_new_data, new_data, calibrating, calib_failure, adc_error, handle_sensor_calib,
}

-- A sensor of the sampler, by its place in the record.
pub data Slot : Type 0 where
  vin_slot vout_slot iin_slot iout_slot : Slot
  other_slot : ℕ → Slot

-- `AdcReadMode`
pub data ReadMode : Type 0 where
  muxed_round_robin snapshot_all_channels streamed_callback : ReadMode

-- `AdcState`, with the channel that was started last.
pub record AdcState : Type 0 where
  pub read_mode : ReadMode
  pub sensor_by_ch : List (Option Slot)
  -- the sensors of a multiplexed converter with their channels
  pub cycle_sensors : List (Slot × ℕ)
  pub cycle_order : List ℕ
  pub cycle_pos : ℕ  -- uint8_t
  pub started : ℕ

-- What the driver of a converter gives in a poll: `hasData`, `isGood`, what `read` hands to its callback,
-- and `getSample` by the channel that was started.
pub record Reading (F : Type 0) : Type 0 where
  pub has_data : Bool
  pub is_good : Bool
  pub streamed : List (ℕ × F)
  pub sampled : ℕ → F

abbrev pub nth {ℓ} : {A : Type ℓ} → List A → ℕ → Option A
nth [] i = none
nth (x ∷ xs) zero = some x
nth (x ∷ xs) (suc i) = nth xs i

abbrev pub is_streamed : ReadMode → Bool
is_streamed streamed_callback = true
is_streamed muxed_round_robin = false
is_streamed snapshot_all_channels = false

abbrev pub is_muxed : ReadMode → Bool
is_muxed muxed_round_robin = true
is_muxed streamed_callback = false
is_muxed snapshot_all_channels = false

-- The converter has read all its channels since the virtual sensors were updated.
abbrev pub completes : AdcState → Bool
completes st = not (is_muxed st.read_mode) || (st.cycle_pos == 0)

-- The order of the results.
abbrev pub rank : UpdateRet → ℕ
rank no_new_data = 0
rank new_data = 1
rank calibrating = 2
rank calib_failure = 3
rank adc_error = 4

abbrev pub larger : UpdateRet → UpdateRet → UpdateRet
larger r res = if ltb (rank res) (rank r) then r else res

-- The sensor that a poll of a multiplexed converter gives its sample to, with the channel that was
-- sampled; the next channel is started.
unfoldable pub advance : AdcState → Option ((Slot × ℕ) × AdcState)
advance st = nth st.cycle_order st.cycle_pos >>= (λ i. nth st.cycle_sensors i >>= (λ s.
    let next = u8 ((st.cycle_pos + 1) % length st.cycle_order) in
    nth st.cycle_order next >>= (λ j.
      nth st.cycle_sensors j
      >>= (λ t. some ((s.0, st.started), record st { cycle_pos = next; started = t.1 })))))

-- The part of `begin` that starts a multiplexed converter.
unfoldable pub begin_cycle : AdcState → Option AdcState
begin_cycle st =
    let order = build_cycle_order (length st.cycle_sensors) in
    nth order 0 >>= (λ i.
      nth st.cycle_sensors i
      >>= (λ s. some (record st { cycle_order = order; cycle_pos = 0; started = s.1 })))

module _ {F : Type 0} where
  abbrev pub set_nth : List (Sensor F) → ℕ → Sensor F → List (Sensor F)
  set_nth [] i s = []
  set_nth (x ∷ xs) zero s = s ∷ xs
  set_nth (x ∷ xs) (suc i) s = x ∷ set_nth xs i s

  abbrev pub sensor_of : Slot → Sampler F → Option (Sensor F)
  sensor_of vin_slot a = some a.vin
  sensor_of vout_slot a = some a.vout
  sensor_of iin_slot a = some a.iin
  sensor_of iout_slot a = some a.iout
  sensor_of (other_slot i) a = nth a.others i

  abbrev pub put_sensor : Slot → Sensor F → Sampler F → Sampler F
  put_sensor vin_slot s a = record a { vin = s }
  put_sensor vout_slot s a = record a { vout = s }
  put_sensor iin_slot s a = record a { iin = s }
  put_sensor iout_slot s a = record a { iout = s }
  put_sensor (other_slot i) s a = record a { others = set_nth a.others i s }

-- The clock, the de-spiker's threshold and the notch filters of the sensors.
pub record Setting (F : Type 0) : Type 0 where
  pub now : ℕ
  pub despike_k : F
  pub notch : Slot → Option (F → F)

module _ {F : Type 0} ⦃fl : Float F⦄ (set : Setting F) where
  open fl use {is_nan}

  -- `_addSensorSample`. `none` is a failed assertion or a missing sensor.
  unfoldable pub add_sensor_sample : Slot → F → Sampler F → Option (Sampler F × UpdateRet)
  add_sensor_sample slot v a =
      if is_nan v
      then some (a, calib_failure)
      else (sensor_of slot a >>= (λ s.
          let s1 = add_sample set.despike_k (set.notch slot) v s in
          handle_sensor_calib set.now s1 (put_sensor slot s1 a)
          >>= (λ r. some (put_sensor slot r.0 r.1, r.2))))

  -- The callback of `read`, for each sample of the stream.
  abbrev pub add_streamed :
      List (Option Slot) → List (ℕ × F) → Sampler F → UpdateRet → Option (Sampler F × UpdateRet)
  add_streamed by_ch [] a res = some (a, res)
  add_streamed by_ch ((ch, v) ∷ xs) a res = nth by_ch ch >>= (λ o. o >>= (λ slot.
      add_sensor_sample slot v a >>= (λ r. add_streamed by_ch xs r.0 (larger r.1 res))))

  -- The loop over all channels, from channel `i` on.
  abbrev pub add_snapshot :
      (ℕ → F)
      → (i : ℕ) → List (Option Slot)
      → Sampler F
      → UpdateRet
      → Option (Sampler F × UpdateRet)
  add_snapshot sampled i [] a res = some (a, res)
  add_snapshot sampled i (none ∷ slots) a res = add_snapshot sampled (suc i) slots a res
  add_snapshot sampled i (some slot ∷ slots) a res =
      add_sensor_sample slot (sampled i) a
      >>= (λ r. add_snapshot sampled (suc i) slots r.0 (larger r.1 res))

  -- The end of `_updateAdc`: without a result of the calibration there are new data, unless the
  -- calibration goes on.
  abbrev pub conclude : Sampler F → UpdateRet → UpdateRet
  conclude a no_new_data = if a.calibrating == 0 then new_data else calibrating
  conclude a new_data = new_data
  conclude a calibrating = calibrating
  conclude a calib_failure = calib_failure
  conclude a adc_error = adc_error

  abbrev pub concluded : AdcState → Sampler F × UpdateRet → AdcState × Sampler F × UpdateRet
  concluded st (a, res) = (st, a, conclude a res)

  -- A converter that streams: the samples are drained before it is asked whether it is good.
  abbrev pub after_stream :
      Reading F → AdcState → Sampler F × UpdateRet → AdcState × Sampler F × UpdateRet
  after_stream x st (a, res) =
      if not x.is_good
      then (st, a, adc_error)
      else if not x.has_data
      then (st, a, no_new_data)
      else concluded st (a, res)

  abbrev pub drained : Reading F → AdcState → Sampler F → Option (Sampler F × UpdateRet)
  drained x st a =
      if x.has_data
      then add_streamed st.sensor_by_ch x.streamed a no_new_data
      else some (a, no_new_data)

  abbrev pub poll_streamed :
      Reading F → AdcState → Sampler F → Option (AdcState × Sampler F × UpdateRet)
  poll_streamed x st a = drained x st a >>= (λ r. some (after_stream x st r))

  -- The other converters; one that streams is not read here.
  abbrev pub poll_ready :
      ReadMode → Reading F → AdcState → Sampler F → Option (AdcState × Sampler F × UpdateRet)
  poll_ready streamed_callback x st a = none
  poll_ready snapshot_all_channels x st a =
      add_snapshot x.sampled 0 st.sensor_by_ch a no_new_data >>= (λ r. some (concluded st r))
  poll_ready muxed_round_robin x st a =
      advance st
      >>= (λ c. add_sensor_sample c.0.0 (x.sampled c.0.1) a >>= (λ r. some (concluded c.1 r)))

  -- `_updateAdc`
  unfoldable pub update_adc :
      Reading F → AdcState → Sampler F → Option (AdcState × Sampler F × UpdateRet)
  update_adc x st a =
      if is_streamed st.read_mode
      then poll_streamed x st a
      else if not x.is_good
      then some (st, a, adc_error)
      else if not x.has_data
      then some (st, a, no_new_data)
      else poll_ready st.read_mode x st a

  -- The loop of `update` over all converters: their states, the sampler, the largest result, and whether
  -- the virtual sensors are due.
  abbrev pub update_adcs :
      List (Reading F × AdcState)
      → Sampler F
      → UpdateRet
      → Bool
      → Option (List AdcState × Sampler F × UpdateRet × Bool)
  update_adcs [] a res due = some ([], a, res, due)
  update_adcs ((x, st) ∷ xs) a res due = update_adc x st a >>= (λ r.
      update_adcs xs r.1 (larger r.2 res) (due || completes r.0)
      >>= (λ rest. some (r.0 ∷ rest.0, rest.1, rest.2, rest.3)))

  -- A virtual sensor is computed from the others.
  abbrev pub add_virtual : List (Slot × (Sampler F → F)) → Sampler F → Option (Sampler F)
  add_virtual [] a = some a
  add_virtual ((slot, func) ∷ vs) a =
      sensor_of slot a
      >>= (λ s. add_virtual vs (put_sensor slot (add_sample set.despike_k none (func a) s) a))

  abbrev pub finish_update :
      List (Slot × (Sampler F → F))
      → List AdcState × Sampler F × UpdateRet × Bool
      → Option (List AdcState × Sampler F × UpdateRet)
  finish_update virtuals (sts, a, res, due) =
      if (a.calibrating == 0) && due
      then (add_virtual virtuals a >>= (λ a1. some (sts, a1, res)))
      else some (sts, a, res)

  -- `update`
  unfoldable pub update :
      (halted : Bool) (virtuals : List (Slot × (Sampler F → F)))
      → List (Reading F × AdcState)
      → Sampler F
      → Option (List AdcState × Sampler F × UpdateRet)
  update halted virtuals xs a =
      if halted
      then some (map (λ x. x.1) xs, a, no_new_data)
      else (update_adcs xs a no_new_data false >>= finish_update virtuals)
