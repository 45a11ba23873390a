-- ===== src/Signal/Ewma.antt =====
-- `EWMA`, `EWMA_N` and `EWMA_nPass<2>` of src/math/statmath.h: exponentially weighted averages.
use fugu_mppt_firmware.Prelude.{
  ℕ, ◌+◌, ◌≡◌, ◌⊎◌, true, false, arith, if◌then◌else◌, inl, inr, List, [], ◌∷◌, refl, Bool-cases,
  All,
}
use fugu_mppt_firmware.Prelude.Int.{pos}
use fugu_mppt_firmware.Float.{Float, f1}

pub record Ewma (F : Type 0) : Type 0 where
  pub alpha : F
  pub y : F

module _ {F : Type 0} ⦃fl : Float F⦄ where
  open fl use {add, sub, mul, div, dec, of_int, nan, is_nan}

  -- `2 / (span + 1)`
  unfoldable pub alpha_of_span : ℕ → F
  alpha_of_span span = div (dec 2 0) (of_int (pos (span + 1)))

  unfoldable pub new : ℕ → Ewma F
  new span = record { alpha = alpha_of_span span; y = nan }

  -- A NaN sample is passed over, and the first sample starts the average.
  unfoldable pub step : F → Ewma F → Ewma F
  step x e =
      if is_nan x
      then e
      else (let y0 : F = if is_nan e.y then x else e.y in
          record e { y = add (mul (sub f1 e.alpha) y0) (mul e.alpha x) })

  unfoldable pub reset : Ewma F → Ewma F
  reset e = record e { y = nan }

  unfoldable pub steps : List F → Ewma F → Ewma F
  steps [] e = e
  steps (x ∷ xs) e = steps xs (step x e)

  -- The samples without the NaNs.
  abbrev pub numbers : List F → List F
  numbers [] = []
  numbers (x ∷ xs) = let rest = numbers xs in if is_nan x then rest else x ∷ rest

  step-nan : (x : F) (e : Ewma F) → is_nan x ≡ true → step x e ≡ e
  unfolding step
  step-nan x e h = rw h

  -- NaN samples leave no trace: the average is that of the other samples.
  pub steps-numbers : (xs : List F) (e : Ewma F) → steps (numbers xs) e ≡ steps xs e
  unfolding steps
  steps-numbers [] e = refl
  steps-numbers (x ∷ xs) e = elim (Bool-cases (is_nan x)) [
    | inl h ↦ rw (h, step-nan x e h) (steps-numbers xs e)
    | inr h ↦ rw h (steps-numbers xs (step x e))
  ]

  module _ (P : F → Type 0) where
    -- Empty, or in the range.
    abbrev pub IsIn : Ewma F → Type 0
    IsIn e = (is_nan e.y ≡ true) ⊎ P e.y

    -- The mix of two numbers of the range stays in the range.
    abbrev pub KeepsRange : F → Type 0
    KeepsRange alpha = (a b : F) → P a → P b → P (add (mul (sub f1 alpha) a) (mul alpha b))

    step-IsIn :
        (x : F) (e : Ewma F)
        → KeepsRange e.alpha
        → (is_nan x ≡ false → P x)
        → IsIn e
        → (IsIn (step x e)) × ((step x e).alpha ≡ e.alpha)
    unfolding step
    step-IsIn x e k p i = elim (Bool-cases (is_nan x)) [
      | inl h ↦ rw h (i, refl)
      | inr h ↦ elim (Bool-cases (is_nan e.y)) [
        | inl n ↦ rw (h, n) (inr (k x x (p h) (p h)), refl)
        | inr n ↦ elim i [
          | inl m ↦ absurd (ground arith)
          | inr q ↦ rw (h, n) (inr (k e.y x q (p h)), refl)
        ]
      ]
    ]

    -- A sample of the range, that is a number, leaves the average in the range.
    pub step-P :
        (x : F) (e : Ewma F) → KeepsRange e.alpha → is_nan x ≡ false → P x → IsIn e → P (step x e).y
    unfolding step
    step-P x e k n p i = elim (Bool-cases (is_nan e.y)) [
      | inl h ↦ rw (n, h) (k x x p p)
      | inr h ↦ elim i [ inl m ↦ absurd (ground arith) | inr q ↦ rw (n, h) (k e.y x q p) ]
    ]

    -- An average of samples from a range that is closed under the mix is in the range, or still NaN,
    -- whatever NaN samples came between.
    pub steps-IsIn :
        (xs : List F) (e : Ewma F)
        → KeepsRange e.alpha
        → All (λ x. is_nan x ≡ false → P x) xs
        → IsIn e
        → IsIn (steps xs e)
    unfolding steps
    steps-IsIn [] e k all i = i
    steps-IsIn (x ∷ xs) e k all i =
        let next = step-IsIn x e k all.0 i in steps-IsIn xs (step x e) (rw next.1 k) all.1 next.0
