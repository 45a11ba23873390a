-- ===== src/Charger/Hysteresis.antt =====
-- When `Li_ChgTerminationCondition` (src/charger.h) latches and releases, over sequences of frames.
use mathlib.Core.List.{append_assoc}
use fugu_mppt_firmware.Prelude.{
  ◌+◌, ◌<◌, ◌≡◌, ◌⊎◌, inl, inr, refl, sym, ap, ◌∙◌, true, false, arith, List, [], ◌∷◌, ◌++◌, All,
  length, length-append, Bool-cases, subst,
}
use fugu_mppt_firmware.Float.{Float}
use fugu_mppt_firmware.Charger.Params.{Params}
use fugu_mppt_firmware.Charger.Termination.{
  Termination, Frame, update, updates, is_low, is_discharged, over_ceiling, above_line,
  should_release, IsSettled,
}

module _ {F : Type 0} ⦃fl : Float F⦄ where
  open fl use {le, is_finite}

  -- Four consecutive frames whose highest cell is below the voltage floor.
  pub record LowRun (p : Params F) (xs : List (Frame F)) : Type 0 where
    pub before : List (Frame F)
    pub run : List (Frame F)
    pub after : List (Frame F)
    pub split : xs ≡ before ++ (run ++ after)
    pub four : length run ≡ 4
    pub low : All (λ x. is_low p x ≡ true) run

  -- One frame without a deep discharge, on a latched condition.
  update-latched :
      (p : Params F) (x : Frame F) (t : Termination F)
      → t.terminated ≡ true
      → is_discharged p x ≡ false
      → t.vfloor_streak < 4
      → let t' = update p x t in
        ((is_low p x ≡ true)
          × ((t'.terminated ≡ true)
                × (t'.vfloor_streak ≡ t.vfloor_streak + 1)
                × (t.vfloor_streak < 3)
              ⊎ (t'.terminated ≡ false) × (t.vfloor_streak ≡ 3)))
        ⊎ ((is_low p x ≡ false) × (t'.terminated ≡ true) × (t'.vfloor_streak ≡ 0))
  unfolding update should_release
  update-latched p x t h d s = elim (Bool-cases (is_low p x)) [
    | inl e ↦ ground arith
    | inr e ↦ ground arith
  ]

  snoc-All :
      (P : Frame F → Type 0) (xs : List (Frame F)) (x : Frame F)
      → All P xs
      → P x
      → All P (xs ++ (x ∷ []))
  snoc-All P [] x all px = (px, all)
  snoc-All P (y ∷ xs) x all px = (all.0, snoc-All P xs x all.1 px)

  -- A run found later in the sequence is one of the whole sequence.
  later :
      (p : Params F) (pre xs : List (Frame F)) (x : Frame F)
      → LowRun p xs
      → LowRun p (pre ++ (x ∷ xs))
  later p pre xs x r = record {
    before = pre ++ (x ∷ r.before);
    run = r.run;
    after = r.after;
    split =
        ap (λ zs. pre ++ (x ∷ zs)) r.split
        ∙ sym (append_assoc pre (x ∷ r.before) (r.run ++ r.after));
    four = r.four;
    low = r.low;
  }

  released_from :
      (p : Params F) (pre xs : List (Frame F)) (t : Termination F)
      → t.terminated ≡ true
      → length pre ≡ t.vfloor_streak
      → t.vfloor_streak < 4
      → All (λ x. is_low p x ≡ true) pre
      → All (λ x. is_discharged p x ≡ false) xs
      → (updates p xs t).terminated ≡ false
      → LowRun p (pre ++ xs)
  unfolding updates
  released_from p pre [] t h len s low d released = absurd (ground arith)
  released_from p pre (x ∷ xs) t h len s low d released =
      let grown : length (pre ++ (x ∷ [])) ≡ t.vfloor_streak + 1 =
        length-append pre (x ∷ []) ∙ ap (λ n. n + 1) len in
      let whole : (pre ++ (x ∷ [])) ++ xs ≡ pre ++ (x ∷ xs) = append_assoc pre (x ∷ []) xs in
      elim (update-latched p x t h d.0 s) [
        | inl (l, inl (still, counted, short)) ↦ subst (LowRun p) whole (
            released_from p (pre ++ (x ∷ [])) xs (update p x t) still (grown ∙ sym counted)
              (ground arith) (snoc-All (λ z. is_low p z ≡ true) pre x low l) d.1 released)
        | inl (l, inr (off, third)) ↦ record {
          before = [];
          run = pre ++ (x ∷ []);
          after = xs;
          split = sym whole;
          four = ground arith;
          low = snoc-All (λ z. is_low p z ≡ true) pre x low l;
        }
        | inr (l, still, zeroed) ↦
            later p pre xs x (
              released_from p [] xs (update p x t) still (sym zeroed) (ground arith) _ d.1 released)
      ]

  -- A latched termination with an empty streak that is released over frames none of which is a deep
  -- discharge was released on four consecutive frames below the voltage floor: no shorter sag does it.
  pub released-LowRun :
      (p : Params F) (xs : List (Frame F)) (t : Termination F)
      → t.terminated ≡ true
      → t.vfloor_streak ≡ 0
      → All (λ x. is_discharged p x ≡ false) xs
      → (updates p xs t).terminated ≡ false
      → LowRun p xs
  released-LowRun p xs t h z d released =
      released_from p [] xs t h (sym z) (ground arith) _ d released

  over-update :
      (p : Params F) (x : Frame F) (t : Termination F)
      → over_ceiling p x t ≡ true
      → t.ceil_streak < 2
      → ((update p x t).terminated ≡ true)
        ⊎ ((update p x t).terminated ≡ false)
          × ((update p x t).ceil_streak ≡ 1)
          × (t.ceil_streak ≡ 0)
  unfolding update
  over-update p x t o s = ground arith

  -- Two consecutive frames at or above a finite cell ceiling latch an open termination at the second
  -- one at the latest, whatever the current and the termination line are.
  pub ceiling_latches :
      (p : Params F) (x y : Frame F) (t : Termination F)
      → is_finite p.cv_ceiling ≡ true
      → le p.cv_ceiling x.vcell_high ≡ true
      → le p.cv_ceiling y.vcell_high ≡ true
      → t.terminated ≡ false
      → IsSettled t
      → ((update p x t).terminated ≡ true) ⊎ ((update p y (update p x t)).terminated ≡ true)
  ceiling_latches p x y t f hx hy h s = elim (over-update p x t (rw (f, hx, h) refl) s.ceil_below) [
    | inl latched ↦ inl latched
    | inr (off, one, _) ↦
        elim (over-update p y (update p x t) (rw (f, hy, off) refl) (ground arith)) [
          | inl latched ↦ inr latched
          | inr (_, _, none_yet) ↦ absurd (ground arith)
        ]
  ]

  -- One frame on an empty ceiling streak, over the ceiling or not, latches an open termination exactly
  -- if it is above the termination line at a current that is not a discharge.
  pub ceiling_spike :
      (p : Params F) (x : Frame F) (t : Termination F)
      → t.terminated ≡ false
      → t.ceil_streak ≡ 0
      → (update p x t).terminated ≡ above_line p x
  unfolding update
  ceiling_spike p x t h z = elim (Bool-cases (above_line p x)) [
    | inl e ↦ ground arith
    | inr e ↦ ground arith
  ]
