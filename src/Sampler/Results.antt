-- ===== src/Sampler/Results.antt =====
-- The result of `ADC_Sampler::update` of src/adc/sampling.h where a converter is not good.
use fugu_mppt_firmware.Prelude.{
  ℕ, ◌≤◌, ◌≡◌, ◌⊎◌, inl, inr, refl, subst, Bool, false, ◌&&◌, ◌||◌, not, ◌==◌, if_cases, Option,
  none, some, List, [], ◌∷◌, ◌>>=◌, arith,
}
use fugu_mppt_firmware.Float.{Float}
use fugu_mppt_firmware.Sampler.{Sampler}
use fugu_mppt_firmware.Sampler.Calibrating.{
  UpdateRet, no_new_data, new_data, calibrating, calib_failure, adc_error,
}
use fugu_mppt_firmware.Sampler.Polling.{
  Slot, AdcState, Reading, Setting, rank, larger, is_streamed, completes, drained, update_adc,
  update_adcs, finish_update, update, after_stream, add_virtual,
}

-- What holds of the value, if there is one.
abbrev pub Gives : {A : Type 0} → (A → Type 0) → Option A → Type 0
Gives P none = Unit
Gives P (some a) = P a

bind-Gives :
    {A B : Type 0} (P : A → Type 0) (Q : B → Type 0) (o : Option B) (f : B → Option A)
    → Gives Q o
    → ((b : B) → Q b → Gives P (f b))
    → Gives P (o >>= f)
bind-Gives P Q none f q k = _
bind-Gives P Q (some b) f q k = k b q

any-Gives : {B : Type 0} (o : Option B) → Gives (λ b. Unit) o
any-Gives none = _
any-Gives (some b) = _

-- One of the converters is not good.
abbrev pub IsDead : {F : Type 0} → List (Reading F × AdcState) → Type 0
IsDead [] = ⊥
IsDead (x ∷ xs) = (x.0.is_good ≡ false) ⊎ IsDead xs

larger-rank :
    (r res : UpdateRet) → (rank r ≤ rank (larger r res)) × (rank res ≤ rank (larger r res))
larger-rank r res = ground arith

top_rank : (r : UpdateRet) → 4 ≤ rank r → r ≡ adc_error
top_rank no_new_data h = absurd (omega (arith, h))
top_rank new_data h = absurd (omega (arith, h))
top_rank calibrating h = absurd (omega (arith, h))
top_rank calib_failure h = absurd (omega (arith, h))
top_rank adc_error h = refl

module _ {F : Type 0} ⦃fl : Float F⦄ (set : Setting F) where
  abbrev IsError : AdcState × Sampler F × UpdateRet → Type 0
  IsError r = r.2 ≡ adc_error

  after_stream-dead :
      (x : Reading F) (st : AdcState) (r : Sampler F × UpdateRet)
      → x.is_good ≡ false
      → IsError (after_stream set x st r)
  after_stream-dead x st r dead = rw dead refl

  update_adc-dead :
      (x : Reading F) (st : AdcState) (a : Sampler F)
      → x.is_good ≡ false
      → Gives IsError (update_adc set x st a)
  unfolding update_adc
  update_adc-dead x st a dead =
      if_cases (Gives IsError) (is_streamed st.read_mode)
        (λ _.
          bind-Gives IsError (λ r. Unit) (drained set x st a) (λ r. some (after_stream set x st r))
            (any-Gives (drained set x st a)) (λ r _. after_stream-dead x st r dead))
        (λ _. if_cases (Gives IsError) (not x.is_good) (λ _. refl) (λ good. absurd (ground arith)))

  update_adcs-rank :
      (xs : List (Reading F × AdcState)) (a : Sampler F) (res : UpdateRet) (due : Bool) (n : ℕ)
      → n ≤ rank res
      → Gives (λ r. n ≤ rank r.2) (update_adcs set xs a res due)
  update_adcs-rank [] a res due n h = h
  update_adcs-rank ((x, st) ∷ xs) a res due n h =
      bind-Gives (λ r. n ≤ rank r.2) (λ r. Unit) (update_adc set x st a) _ (any-Gives _)
        (λ r _.
          bind-Gives (λ z. n ≤ rank z.2) (λ z. n ≤ rank z.2) _ _
            (update_adcs-rank xs r.1 (larger r.2 res) (due || completes r.0) n
              (omega (arith, h, (larger-rank r.2 res).1)))
            (λ z q. q))

  update_adcs-dead :
      (xs : List (Reading F × AdcState)) (a : Sampler F) (res : UpdateRet) (due : Bool)
      → IsDead xs
      → Gives (λ r. 4 ≤ rank r.2) (update_adcs set xs a res due)
  update_adcs-dead [] a res due dead = absurd dead
  update_adcs-dead ((x, st) ∷ xs) a res due (inl dead) =
      bind-Gives (λ r. 4 ≤ rank r.2) IsError (update_adc set x st a) _ (update_adc-dead x st a dead)
        (λ r e.
          bind-Gives (λ z. 4 ≤ rank z.2) (λ z. 4 ≤ rank z.2) _ _
            (update_adcs-rank xs r.1 (larger r.2 res) (due || completes r.0) 4
              (rw e (larger-rank adc_error res).0))
            (λ z q. q))
  update_adcs-dead ((x, st) ∷ xs) a res due (inr dead) =
      bind-Gives (λ r. 4 ≤ rank r.2) (λ r. Unit) (update_adc set x st a) _ (any-Gives _)
        (λ r _.
          bind-Gives (λ z. 4 ≤ rank z.2) (λ z. 4 ≤ rank z.2) _ _
            (update_adcs-dead xs r.1 (larger r.2 res) (due || completes r.0) dead) (λ z q. q))

  finish_update-rank :
      (virtuals : List (Slot × (Sampler F → F))) (r : List AdcState × Sampler F × UpdateRet × Bool)
      → 4 ≤ rank r.2
      → Gives (λ z. z.2 ≡ adc_error) (finish_update set virtuals r)
  finish_update-rank virtuals (sts, a, res, due) h =
      if_cases (Gives (λ z. z.2 ≡ adc_error)) ((a.calibrating == 0) && due)
        (λ _.
          bind-Gives (λ z. z.2 ≡ adc_error) (λ r. Unit) (add_virtual set virtuals a) _ (any-Gives _)
            (λ a1 _. top_rank res h))
        (λ _. top_rank res h)

  value-Gives : {A : Type 0} (P : A → Type 0) (o : Option A) (a : A) → Gives P o → o ≡ some a → P a
  value-Gives P o a g e = subst (Gives P) e g

  -- If the driver of any converter is not good, the result of a poll that is not halted and fails no
  -- assertion is AdcError, whatever the other converters and the calibration give.
  pub update-dead :
      (virtuals : List (Slot × (Sampler F → F))) (xs : List (Reading F × AdcState)) (a : Sampler F)
      (r : List AdcState × Sampler F × UpdateRet)
      → IsDead xs
      → update set false virtuals xs a ≡ some r
      → r.2 ≡ adc_error
  unfolding update
  update-dead virtuals xs a r dead e =
      value-Gives (λ z. z.2 ≡ adc_error) _ r
        (bind-Gives (λ z. z.2 ≡ adc_error) (λ z. 4 ≤ rank z.2)
          (update_adcs set xs a no_new_data false) _ (update_adcs-dead xs a no_new_data false dead)
          (finish_update-rank virtuals))
        e
