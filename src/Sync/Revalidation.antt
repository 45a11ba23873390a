-- ===== src/Sync/Revalidation.antt =====
-- The revalidation of the offset in `rxCb` of src/sync/bsync.cpp: the estimate is frozen while it runs, and
-- it ends with its last offset.
use fugu_mppt_firmware.Prelude.{
  ℕ, suc, ◌+◌, ◌<◌, ◌≡◌, refl, ap, ◌∙◌, true, false, leb, List, [], ◌∷◌, ◌++◌, length,
  length-append, All, arith, if_cases,
}
use fugu_mppt_firmware.Prelude.Int.{ℤ, ◌-ℤ◌}
use fugu_mppt_firmware.Float.{Float, f0}
use fugu_mppt_firmware.Sync.{Estimator, Est, reval_n, estimate, collect, predicted}

module _ {F : Type 0} ⦃fl : Float F⦄ where
  open fl use {lt, dec, of_int}

  -- The frames as `estimate` gets them: the offset and the time.
  abbrev pub estimates : List (F × ℤ) → Estimator F → Estimator F
  estimates [] s = s
  estimates (x ∷ xs) s = estimates xs (estimate x.0 x.1 s)

  -- The frame is after the estimate's, and no duplicate.
  abbrev pub IsApart : Est F → F × ℤ → Type 0
  IsApart e x =
      (lt (of_int (x.1 -ℤ e.t)) f0 ≡ false) × (lt (dec 1000 0) (of_int (x.1 -ℤ e.t)) ≡ true)

  pub record IsCollecting (s : Estimator F) (e : Est F) (n : ℕ) : Type 0 where
    pub inited : s.est_init ≡ true
    pub runs : s.revaling ≡ true
    pub frozen : s.est ≡ e
    pub count : length s.reval_buf ≡ n

  estimate-collect :
      (x : F × ℤ) (s : Estimator F) (e : Est F) (n : ℕ)
      → IsCollecting s e n
      → IsApart e x
      → estimate x.0 x.1 s ≡ collect x.0 (predicted (of_int (x.1 -ℤ e.t)) s) x.1 s
  unfolding estimate
  estimate-collect x s e n c a = rw (c.inited, c.frozen, a.0, a.1, c.runs) refl

  collect-IsCollecting :
      (meas pred : F) (w : ℤ) (s : Estimator F) (e : Est F) (n : ℕ)
      → IsCollecting s e n
      → suc n < reval_n
      → IsCollecting (collect meas pred w s) e (suc n)
  collect-IsCollecting meas pred w s e n c few =
      let size : length (s.reval_buf ++ meas ∷ []) ≡ suc n =
        omega (arith, length-append s.reval_buf (meas ∷ []), c.count) in
      if_cases (λ (z : Estimator F). IsCollecting z e (suc n))
        (leb reval_n (length (s.reval_buf ++ meas ∷ [])))
        (λ full. absurd (ground (arith, size, few)))
        (λ _. record { inited = c.inited; runs = c.runs; frozen = c.frozen; count = size })

  estimates-IsCollecting :
      (xs : List (F × ℤ)) (s : Estimator F) (e : Est F) (n : ℕ)
      → IsCollecting s e n
      → n + length xs < reval_n
      → All (IsApart e) xs
      → IsCollecting (estimates xs s) e (n + length xs)
  estimates-IsCollecting [] s e n c few apart = let same : n + 0 ≡ n = omega arith in rw same c
  estimates-IsCollecting (x ∷ xs) s e n c few apart =
      let pred = predicted (of_int (x.1 -ℤ e.t)) s in
      let next : IsCollecting (estimate x.0 x.1 s) e (suc n) =
        rw (estimate-collect x s e n c apart.0)
          (collect-IsCollecting x.0 pred x.1 s e n c (omega (arith, few))) in
      let more : n + suc (length xs) ≡ suc n + length xs = omega arith in
      rw more
        (estimates-IsCollecting xs (estimate x.0 x.1 s) e (suc n) next (omega (arith, few)) apart.1)

  -- What the last frame of a revalidation leaves.
  abbrev pub IsRebased : Est F → ℤ → Estimator F → Type 0
  IsRebased e w s =
      (s.revaling ≡ false)
      × (s.rej_streak ≡ 0)
      × (s.est.t ≡ w)
      × (s.est.r ≡ e.r)
      × (s.est.n_beacons ≡ e.n_beacons)

  collect-IsRebased :
      (meas pred : F) (w : ℤ) (s : Estimator F) (e : Est F)
      → IsCollecting s e 14
      → IsRebased e w (collect meas pred w s)
  collect-IsRebased meas pred w s e c =
      if_cases (IsRebased e w) (leb reval_n (length (s.reval_buf ++ meas ∷ [])))
        (λ _. (refl, refl, refl, ap (λ z. z.r) c.frozen, ap (λ z. z.n_beacons) c.frozen))
        (λ short. absurd (ground (arith, length-append s.reval_buf (meas ∷ []), c.count)))

  -- A revalidation that has just begun lasts 15 frames: through the first 14 the estimate is frozen and it
  -- goes on, and the 15th ends it, moves the estimate to that frame's time and keeps its drift. The
  -- frames are after the estimate's time and no duplicates.
  pub revalidation_ends :
      (xs : List (F × ℤ)) (x : F × ℤ) (s : Estimator F)
      → s.est_init ≡ true
      → s.revaling ≡ true
      → s.reval_buf ≡ []
      → length xs ≡ 14
      → All (IsApart s.est) xs
      → IsApart s.est x
      → let during = estimates xs s in
        (during.est ≡ s.est)
        × (during.revaling ≡ true)
        × IsRebased s.est x.1 (estimate x.0 x.1 during)
  revalidation_ends xs x s inited runs empty size apart apart' =
      let start : IsCollecting s s.est 0 = record {
        inited = inited;
        runs = runs;
        frozen = refl;
        count = ap length empty;
      } in
      let during = estimates xs s in
      let all = estimates-IsCollecting xs s s.est 0 start (omega (arith, size)) apart in
      let full : IsCollecting during s.est 14 = record {
        inited = all.inited;
        runs = all.runs;
        frozen = all.frozen;
        count = all.count ∙ (omega (arith, size));
      } in
      (
        all.frozen,
        all.runs,
        rw (estimate-collect x during s.est 14 full apart') (
            collect-IsRebased x.0 (predicted (of_int (x.1 -ℤ s.est.t)) during) x.1 during s.est
              full),
      )
