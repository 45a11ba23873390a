-- ===== src/Metering/Window.antt =====
-- What the ring of days of src/metering.h shows: the last sixty days.
use fugu_mppt_firmware.Prelude.{
  ℕ, suc, zero, ◌+◌, ◌-◌, ◌%◌, ◌<◌, ◌≡◌, ◌≢◌, refl, sym, subst, ap, ◌∙◌, Bool, true, false, arith,
  if◌then◌else◌, List, [], ◌∷◌, ◌++◌, some, set, get_or, length, length-set, All, ◌>>=◌, map,
  Bool-cases, inl, inr,
}
use fugu_mppt_firmware.Metering.Ring.{
  Ring, num_days, replicate, clear, add, adds, stored, day_at, days_from, get_all_days,
}

module _ {A : Type 0} where
  abbrev pub drop : ℕ → List A → List A
  drop zero xs = xs
  drop (suc n) [] = []
  drop (suc n) (x ∷ xs) = drop n xs

  abbrev pub filter : (A → Bool) → List A → List A
  filter p [] = []
  filter p (x ∷ xs) = if p x then x ∷ filter p xs else filter p xs

  get_or-set : (xs : List A) (i : ℕ) (v d : A) → i < length xs → get_or (set xs i v) i d ≡ v
  get_or-set [] i v d h = absurd (omega (arith, h))
  get_or-set (x ∷ xs) zero v d h = refl
  get_or-set (x ∷ xs) (suc i) v d h = get_or-set xs i v d (omega (arith, h))

  get_or-set_other :
      (xs : List A) (i j : ℕ) (v d : A) → i ≢ j → get_or (set xs i v) j d ≡ get_or xs j d
  get_or-set_other [] i j v d h = refl
  get_or-set_other (x ∷ xs) zero zero v d h = absurd (h refl)
  get_or-set_other (x ∷ xs) zero (suc j) v d h = refl
  get_or-set_other (x ∷ xs) (suc i) zero v d h = refl
  get_or-set_other (x ∷ xs) (suc i) (suc j) v d h = get_or-set_other xs i j v d (λ e. h (ap suc e))

  append_assoc : (xs ys zs : List A) → (xs ++ ys) ++ zs ≡ xs ++ (ys ++ zs)
  append_assoc [] ys zs = refl
  append_assoc (x ∷ xs) ys zs = ap (x ∷◌) (append_assoc xs ys zs)

  append_nil : (xs : List A) → xs ++ [] ≡ xs
  append_nil [] = refl
  append_nil (x ∷ xs) = ap (x ∷◌) (append_nil xs)

module _ {D : Type 0} (has_energy : D → Bool) (empty : D) where
  -- The ring has its sixty places, and the pointer is at one of them.
  pub record IsRing (r : Ring D) : Type 0 where
    pub places : length r.ring_buf ≡ num_days
    pub inside : r.ring_ptr < num_days

  -- The places in the order of age, with the empty ones.
  unfoldable view_from : (i count : ℕ) → Ring D → List D
  view_from i zero r = []
  view_from i (suc count) r = day_at has_energy empty r i ∷ view_from (suc i) count r

  days_from-view :
      {S : Type 0} (shown : D → S) (i count : ℕ) (r : Ring D)
      → days_from has_energy empty shown i count r
        ≡ map shown (filter has_energy (view_from i count r))
  unfolding days_from view_from
  days_from-view shown i zero r = refl
  days_from-view shown i (suc count) r =
      elim (Bool-cases (has_energy (day_at has_energy empty r i))) [
        | inl h ↦ rw (h, days_from-view shown (suc i) count r) refl
        | inr h ↦ rw (h, days_from-view shown (suc i) count r) refl
      ]

  -- The places of the ring after the addition of a day: the day is at the end, the others moved up.
  day_at-newest :
      (d : D) (r : Ring D) → IsRing r → day_at has_energy empty (stored has_energy empty d r) 59 ≡ d
  day_at-newest d r ring =
      let place : ((r.ring_ptr + 1) % 60 + 59) % 60 ≡ r.ring_ptr = omega (arith, ring.inside) in
      rw place (get_or-set r.ring_buf r.ring_ptr d empty (omega (arith, ring.inside, ring.places)))

  day_at-older :
      (d : D) (r : Ring D) (i : ℕ)
      → IsRing r
      → i < 59
      → day_at has_energy empty (stored has_energy empty d r) i ≡ day_at has_energy empty r (suc i)
  day_at-older d r i ring old =
      let place : ((r.ring_ptr + 1) % 60 + i) % 60 ≡ (r.ring_ptr + suc i) % 60 =
        omega (arith, ring.inside, old) in
      rw place (
        get_or-set_other r.ring_buf r.ring_ptr ((r.ring_ptr + suc i) % 60) d empty
          (omega (arith, ring.inside, old)))

  stored-IsRing : (d : D) (r : Ring D) → IsRing r → IsRing (stored has_energy empty d r)
  stored-IsRing d r ring = record {
    places = length-set r.ring_buf r.ring_ptr d ∙ ring.places;
    inside = omega arith;
  }

  view_from-stored :
      (d : D) (r : Ring D) (i count : ℕ)
      → IsRing r
      → i + count ≡ 59
      → view_from i (suc count) (stored has_energy empty d r) ≡ view_from (suc i) count r ++ d ∷ []
  unfolding view_from
  view_from-stored d r i zero ring e =
      let last : i ≡ 59 = omega (arith, e) in
      ap (λ x. x ∷ [])
        (subst (λ k. day_at has_energy empty (stored has_energy empty d r) k ≡ d) (sym last)
          (day_at-newest d r ring))
  view_from-stored d r i (suc count) ring e =
      rw
        (
          day_at-older d r i ring (omega (arith, e)),
          view_from-stored d r (suc i) count ring (omega (arith, e)),
        )
        refl

  -- The days in the order in which they were added, behind sixty empty ones, of which the ring keeps
  -- the last sixty.
  abbrev pub kept : List D → List D → List D
  kept before ds = drop (length ds) (before ++ ds)

  view_from-suc :
      (i count : ℕ) (r : Ring D)
      → view_from i (suc count) r ≡ day_at has_energy empty r i ∷ view_from (suc i) count r
  unfolding view_from
  view_from-suc i count r = refl

  kept-stored :
      (d : D) (ds : List D) (r : Ring D)
      → IsRing r
      → kept (view_from 0 60 (stored has_energy empty d r)) ds ≡ kept (view_from 0 60 r) (d ∷ ds)
  kept-stored d ds r ring =
      rw (view_from-stored d r 0 59 ring refl, view_from-suc 0 59 r)
        (ap (drop (length ds)) (append_assoc (view_from 1 59 r) (d ∷ []) ds))

  view_from-adds :
      (ds : List D) (r : Ring D)
      → IsRing r
      → All (λ d. has_energy d ≡ true) ds
      → (r' : Ring D) × (adds has_energy empty ds r ≡ some r')
        × (view_from 0 60 r' ≡ kept (view_from 0 60 r) ds)
  unfolding adds add
  view_from-adds [] r ring h = (r, refl, sym (append_nil (view_from 0 60 r)))
  view_from-adds (d ∷ ds) r ring h =
      let (r', e, v) =
        view_from-adds ds (stored has_energy empty d r) (stored-IsRing d r ring) h.1 in
      (r', rw h.0 e, v ∙ kept-stored d ds r ring)

  filter-All : (ds : List D) → All (λ d. has_energy d ≡ true) ds → filter has_energy ds ≡ ds
  filter-All [] h = refl
  filter-All (d ∷ ds) h = rw (h.0, filter-All ds h.1) refl

  All-drop :
      (n : ℕ) (ds : List D)
      → All (λ d. has_energy d ≡ true) ds
      → All (λ d. has_energy d ≡ true) (drop n ds)
  All-drop zero ds h = h
  All-drop (suc n) [] h = h
  All-drop (suc n) (d ∷ ds) h = All-drop n ds h.1

  filter-drop :
      (n k : ℕ) (ds : List D)
      → has_energy empty ≡ false
      → All (λ d. has_energy d ≡ true) ds
      → filter has_energy (drop n (replicate k empty ++ ds)) ≡ drop (n - k) ds
  filter-drop n zero ds none_empty h =
      let same : n - 0 ≡ n = omega arith in rw same (filter-All (drop n ds) (All-drop n ds h))
  filter-drop zero (suc k) ds none_empty h =
      let same : 0 - suc k ≡ 0 - k = omega arith in
      rw (none_empty, same) (filter-drop zero k ds none_empty h)
  filter-drop (suc n) (suc k) ds none_empty h =
      let same : suc n - suc k ≡ n - k = omega arith in rw same (filter-drop n k ds none_empty h)

  clear-IsRing : IsRing (clear has_energy empty)
  unfolding clear
  clear-IsRing = record { places = refl; inside = omega arith }

  view_from-clear : view_from 0 60 (clear has_energy empty) ≡ replicate 60 empty
  unfolding view_from clear
  view_from-clear = refl

  -- If days with energy are added to an empty ring, however many, what `getAllDays` gives are the last
  -- sixty of them in their order, converted; the day of zeros has none.
  pub get_all_days-adds :
      {S : Type 0} (shown : D → S) (ds : List D)
      → has_energy empty ≡ false
      → All (λ d. has_energy d ≡ true) ds
      → (adds has_energy empty ds (clear has_energy empty)
          >>= (λ r. some (get_all_days has_energy empty shown r)))
        ≡ some (map shown (drop (length ds - 60) ds))
  unfolding get_all_days
  get_all_days-adds shown ds none_empty h =
      let (r, e, v) = view_from-adds ds (clear has_energy empty) clear-IsRing h in
      rw (e, days_from-view shown 0 60 r, v, view_from-clear)
        (ap (λ x. some (map shown x)) (filter-drop (length ds) 60 ds none_empty h))
