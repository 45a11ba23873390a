-- ===== src/ConfFile/Rewrite.antt =====
-- One rewriting of the lines by `ConfFile::add` of src/conf.h: what it does to the value of a key.
use fugu_mppt_firmware.Prelude.{
  ◌≡◌, ◌≢◌, refl, sym, subst, ap, ◌∙◌, true, false, if◌then◌else◌, Option, none, some, List, [],
  ◌∷◌, ◌++◌, inl, inr, arith, Bool-cases, All, Bytes, bytes_eq, bytes_eq_cases,
}
use fugu_mppt_firmware.ConfFile.{
  Entries, find, contains, hash, equals, new_line, update_found, update_parts, update_line,
  update_lines, append_new,
}
use fugu_mppt_firmware.ConfFile.Text.{trim, before, behind, split_at}
use fugu_mppt_firmware.ConfFile.Trim.{entry_of, map_parts}
use fugu_mppt_firmware.ConfFile.Settings.{
  after, last_value, last_value-append, IsPlain, entry-new_line, entry-appended,
}

abbrev pub AllPlain : Entries → Type 0
AllPlain values = All IsPlain values

-- No key comes twice.
abbrev pub IsDistinct : Entries → Type 0
IsDistinct [] = Unit
IsDistinct ((key, _) ∷ values) = (find key values ≡ none) × IsDistinct values

find-IsPlain :
    (k v : Bytes) (values : Entries) → AllPlain values → find k values ≡ some v → IsPlain (k, v)
unfolding find
find-IsPlain k v [] plain e = cc
find-IsPlain k v ((key, val) ∷ values) plain e = elim (bytes_eq_cases key k) [
  | inl (same, p) ↦ subst IsPlain (cc (p, rw same at e)) plain.0
  | inr (other, _) ↦ find-IsPlain k v values plain.1 (rw other at e)
]

module _ (k : Bytes) (values : Entries) (plain : AllPlain values) where
  -- The setting in a line whose key is another one does nothing.
  after-other : (j v : Bytes) (d : Option Bytes) → j ≢ k → after k (some (j, v)) d ≡ d
  after-other j v d ne = ground (arith, bytes_eq_cases j k)

  -- A key that is not among the values keeps its value.
  found-other :
      (key line b : Bytes) (w : List Bytes) (d found : Option Bytes)
      → find k values ≡ none
      → find key values ≡ found
      → entry_of line ≡ some (key, b)
      → (r : List Bytes × List Bytes) × (update_found true key line found w ≡ some r)
        × (last_value k r.0 d ≡ after k (entry_of line) d)
  unfolding update_found last_value
  found-other key line b w d none none_k f e = ((line ∷ [], w), refl, refl)
  found-other key line b w d (some val) none_k f e =
      let ne : key ≢ k = λ p. cc (p, f, none_k) in
      let kept : after k (entry_of line) d ≡ d = rw e (after-other key b d ne) in
      elim (Bool-cases (contains key w)) [
        | inl c ↦ (([], w), rw c refl, sym kept)
        | inr c ↦ (
          (new_line key val (behind hash line) ∷ [], key ∷ w),
          rw c refl,
          rw (entry-new_line key val line (find-IsPlain key val values plain f))
                (after-other key val d ne)
              ∙ sym kept,
        )
      ]

  parts-other :
      (line : Bytes) (parts : Option (Bytes × Bytes)) (w : List Bytes) (d : Option Bytes)
      → find k values ≡ none
      → entry_of line ≡ map_parts trim trim parts
      → (r : List Bytes × List Bytes) × (update_parts values true line parts w ≡ some r)
        × (last_value k r.0 d ≡ after k (entry_of line) d)
  unfolding last_value
  parts-other line none w d none_k e = ((line ∷ [], w), refl, refl)
  parts-other line (some (a, b)) w d none_k e =
      found-other (trim a) line (trim b) w d (find (trim a) values) none_k refl e

  step-other :
      (line : Bytes) (w : List Bytes) (d : Option Bytes)
      → find k values ≡ none
      → (r : List Bytes × List Bytes) × (update_line values true line w ≡ some r)
        × (last_value k r.0 d ≡ after k (entry_of line) d)
  unfolding update_line entry_of
  step-other line w d none_k = parts-other line (split_at equals (before hash line)) w d none_k refl

  pub lines-other :
      (lines : List Bytes) (w : List Bytes) (d : Option Bytes)
      → find k values ≡ none
      → (r : List Bytes × List Bytes) × (update_lines values true lines w ≡ some r)
        × (last_value k r.0 d ≡ last_value k lines d)
  unfolding update_lines last_value
  lines-other [] w d none_k = (([], w), refl, refl)
  lines-other (line ∷ lines) w d none_k =
      let (r, e, v) = step-other line w d none_k in
      let (rs, es, vs) = lines-other lines r.1 (after k (entry_of line) d) none_k in
      (
        (r.0 ++ rs.0, rs.1),
        rw (e, es) refl,
        last_value-append k r.0 rs.0 d ∙ ap (last_value k rs.0) v ∙ vs,
      )

  -- A key that is among the values has its value there, once a line with it is written.
  abbrev pub Set : (v : Bytes) → List Bytes → Option Bytes → Type 0
  Set v w d = contains k w ≡ true → d ≡ some v

  contains-cons :
      (key : Bytes) (w : List Bytes)
      → contains k (key ∷ w) ≡ (if bytes_eq key k then true else contains k w)
  unfolding contains
  contains-cons key w = refl

  found-set :
      (v key line b : Bytes) (w : List Bytes) (d found : Option Bytes)
      → find k values ≡ some v
      → find key values ≡ found
      → entry_of line ≡ some (key, b)
      → Set v w d
      → (r : List Bytes × List Bytes) × (update_found true key line found w ≡ some r)
        × Set v r.1 (last_value k r.0 d)
  unfolding update_found last_value
  found-set v key line b w d none known f e held =
      let ne : key ≢ k = λ p. cc (p, f, known) in
      ((line ∷ [], w), refl, (λ c. rw e (after-other key b d ne) ∙ held c))
  found-set v key line b w d (some val) known f e held = elim (Bool-cases (contains key w)) [
    | inl c ↦ (([], w), rw c refl, held)
    | inr c ↦ (
      (new_line key val (behind hash line) ∷ [], key ∷ w),
      rw c refl,
      (λ (c' : contains k (key ∷ w) ≡ true).
          rw (entry-new_line key val line (find-IsPlain key val values plain f))
            (elim (bytes_eq_cases key k) [
              | inl (same, p) ↦ rw same (cc (p, f, known))
              | inr (other, _) ↦ rw other (held (rw (contains-cons key w, other) at c'))
            ])),
    )
  ]

  parts-set :
      (v line : Bytes) (parts : Option (Bytes × Bytes)) (w : List Bytes) (d : Option Bytes)
      → find k values ≡ some v
      → entry_of line ≡ map_parts trim trim parts
      → Set v w d
      → (r : List Bytes × List Bytes) × (update_parts values true line parts w ≡ some r)
        × Set v r.1 (last_value k r.0 d)
  unfolding last_value
  parts-set v line none w d known e held = ((line ∷ [], w), refl, (λ c. rw e (held c)))
  parts-set v line (some (a, b)) w d known e held =
      found-set v (trim a) line (trim b) w d (find (trim a) values) known refl e held

  pub lines-set :
      (v : Bytes) (lines : List Bytes) (w : List Bytes) (d : Option Bytes)
      → find k values ≡ some v
      → Set v w d
      → (r : List Bytes × List Bytes) × (update_lines values true lines w ≡ some r)
        × Set v r.1 (last_value k r.0 d)
  unfolding update_lines update_line entry_of last_value
  lines-set v [] w d known held = (([], w), refl, held)
  lines-set v (line ∷ lines) w d known held =
      let (r, e, s) = parts-set v line (split_at equals (before hash line)) w d known refl held in
      let (rs, es, ss) = lines-set v lines r.1 (last_value k r.0 d) known s in
      ((r.0 ++ rs.0, rs.1), rw (e, es) refl, (λ c. last_value-append k r.0 rs.0 d ∙ ss c))

-- The lines for the values whose keys the file did not have.
module _ (k : Bytes) where
  append_new-lacks :
      (key val : Bytes) (values : Entries) (w : List Bytes)
      → contains key w ≡ false
      → append_new ((key, val) ∷ values) w ≡ (key ++ equals ∷ val) ∷ append_new values w
  unfolding append_new
  append_new-lacks key val values w lacks = rw lacks refl

  new-line :
      (key val : Bytes) (values : Entries) (w : List Bytes) (d : Option Bytes)
      → IsPlain (key, val)
      → contains key w ≡ false
      → last_value k (append_new ((key, val) ∷ values) w) d
        ≡ last_value k (append_new values w) (after k (some (key, val)) d)
  unfolding last_value
  new-line key val values w d plain lacks =
      ap (λ x. last_value k x d) (append_new-lacks key val values w lacks)
      ∙ ap (λ o. last_value k (append_new values w) (after k o d)) (entry-appended key val plain)

  pub new-other :
      (values : Entries) (w : List Bytes) (d : Option Bytes)
      → AllPlain values
      → find k values ≡ none
      → last_value k (append_new values w) d ≡ d
  unfolding append_new last_value find
  new-other [] w d plain none_k = refl
  new-other ((key, val) ∷ values) w d plain none_k = elim (bytes_eq_cases key k) [
    | inl (same, p) ↦ cc (rw same at none_k)
    | inr (other, ne) ↦ elim (Bool-cases (contains key w)) [
      | inl c ↦ rw c (new-other values w d plain.1 (rw other at none_k))
      | inr c ↦
          new-line key val values w d plain.0 c
          ∙ rw other (new-other values w d plain.1 (rw other at none_k))
    ]
  ]

  pub new-written :
      (values : Entries) (w : List Bytes) (d : Option Bytes)
      → AllPlain values
      → contains k w ≡ true
      → last_value k (append_new values w) d ≡ d
  unfolding append_new last_value
  new-written [] w d plain c = refl
  new-written ((key, val) ∷ values) w d plain c = elim (Bool-cases (contains key w)) [
    | inl has ↦ rw has (new-written values w d plain.1 c)
    | inr lacks ↦
        let other : bytes_eq key k ≡ false = ground (arith, bytes_eq_cases key k) in
        new-line key val values w d plain.0 lacks ∙ rw other (new-written values w d plain.1 c)
  ]

  pub new-set :
      (v : Bytes) (values : Entries) (w : List Bytes) (d : Option Bytes)
      → AllPlain values
      → IsDistinct values
      → find k values ≡ some v
      → contains k w ≡ false
      → last_value k (append_new values w) d ≡ some v
  unfolding append_new last_value find
  new-set v [] w d plain distinct known c = cc
  new-set v ((key, val) ∷ values) w d plain distinct known c = elim (bytes_eq_cases key k) [
    | inl (same, p) ↦
        let lacks : contains key w ≡ false = rw p c in
        new-line key val values w d plain.0 lacks
        ∙ rw same (new-other values w (some val) plain.1 (rw (← p) distinct.0))
        ∙ (rw same at known)
    | inr (other, ne) ↦ elim (Bool-cases (contains key w)) [
      | inl has ↦ rw has (new-set v values w d plain.1 distinct.1 (rw other at known) c)
      | inr lacks ↦
          new-line key val values w d plain.0 lacks
          ∙ rw other (new-set v values w d plain.1 distinct.1 (rw other at known) c)
    ]
  ]
