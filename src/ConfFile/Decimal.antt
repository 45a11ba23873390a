-- ===== src/ConfFile/Decimal.antt =====
-- A number that is written to a file of src/conf.h in decimal is the number that `getLong` reads.
use fugu_mppt_firmware.Prelude.{
  ℕ, zero, suc, ◌+◌, ◌-◌, ◌*◌, ◌/◌, ◌%◌, ◌^◌, ◌<◌, ◌≤◌, ◌≡◌, ◌≢◌, refl, ap, ◌∙◌, Bool, true, false,
  ltb, if◌then◌else◌, Option, some, List, [], ◌∷◌, ◌++◌, length, Bytes, arith, All, bytes_eq_refl,
  ◌⊎◌, inl, inr, Bool-cases,
}
use native.Mathlib.Nat.{pow-suc}
use fugu_mppt_firmware.Prelude.Int.{ℤ, pos}
use fugu_mppt_firmware.ConfFile.{ConfFile, find, hash, rewritten, read_lines, load, add, complete}
use fugu_mppt_firmware.ConfFile.Text.{is_white, trim, trim_front, trim_back}
use fugu_mppt_firmware.ConfFile.Lines.{IsLine}
use fugu_mppt_firmware.ConfFile.Settings.{IsPlain}
use fugu_mppt_firmware.ConfFile.Update.{load-add}
use fugu_mppt_firmware.ConfFile.Numbers.{
  digit, scan, skip_space, ranged, magnitude, strtol, strtol_2_8_10_16, parsed, get_found, get_x,
  get_long, got, long_max, starts_zero,
}

-- `std::to_string`, for up to `f + 1` digits.
unfoldable pub decimal : (f : ℕ) → ℕ → Bytes
decimal zero n = (n % 10 + 48) ∷ []
decimal (suc f) n =
    let front = decimal f (n / 10) in
    if ltb n 10 then (n + 48) ∷ [] else front ++ (n % 10 + 48) ∷ []

abbrev pub IsDigit : ℕ → Type 0
IsDigit c = (48 ≤ c) × (c ≤ 57)

All-snoc : (xs : Bytes) (c : ℕ) → All IsDigit xs → IsDigit c → All IsDigit (xs ++ c ∷ [])
All-snoc [] c h d = (d, _)
All-snoc (x ∷ xs) c h d = (h.0, All-snoc xs c h.1 d)

decimal-IsDigit : (f n : ℕ) → All IsDigit (decimal f n)
unfolding decimal
decimal-IsDigit zero n = omega arith
decimal-IsDigit (suc f) n = elim (Bool-cases (ltb n 10)) [
  | inl e ↦ rw e (ground arith)
  | inr e ↦
      rw e (All-snoc (decimal f (n / 10)) (n % 10 + 48) (decimal-IsDigit f (n / 10)) (omega arith))
]

digit-IsDigit : (c : ℕ) → IsDigit c → digit c ≡ c - 48
unfolding digit
digit-IsDigit c h = ground arith

-- One digit more at the end.
scan-snoc :
    (xs : Bytes) (acc v c : ℕ)
    → All IsDigit xs
    → IsDigit c
    → scan 10 xs acc ≡ (v, [])
    → scan 10 (xs ++ c ∷ []) acc ≡ (v * 10 + (c - 48), [])
unfolding scan
scan-snoc [] acc v c h d e = ground (arith, digit-IsDigit c)
scan-snoc (x ∷ xs) acc v c h d e =
    ground (arith, digit-IsDigit x h.0, scan-snoc xs (acc * 10 + digit x) v c h.1 d)

scan-one : (d : ℕ) → d < 10 → scan 10 ((d + 48) ∷ []) 0 ≡ (d, [])
unfolding scan
scan-one d h = ground (arith, digit-IsDigit (d + 48))

tenth : (f n : ℕ) → n < 10 ^ suc (suc f) → n / 10 < 10 ^ suc f
tenth f n h = omega (arith, pow-suc 10 (suc f))

scan-decimal : (f n : ℕ) → n < 10 ^ suc f → scan 10 (decimal f n) 0 ≡ (n, [])
unfolding decimal
scan-decimal zero n h = let same : n % 10 ≡ n = omega arith in rw same (scan-one n (omega arith))
scan-decimal (suc f) n h = elim (Bool-cases (ltb n 10)) [
  | inl e ↦ rw e (scan-one n (ground arith))
  | inr e ↦
      let back : n / 10 * 10 + (n % 10 + 48 - 48) ≡ n = omega arith in
      rw e (
        scan-snoc (decimal f (n / 10)) 0 (n / 10) (n % 10 + 48) (decimal-IsDigit f (n / 10))
          (omega arith) (scan-decimal f (n / 10) (tenth f n h))
        ∙ ap (λ v. (v, [])) back)
]

abbrev FirstIsDigit : Bytes → Type 0
FirstIsDigit [] = ⊥
FirstIsDigit (c ∷ s) = IsDigit c

first-append : (xs ys : Bytes) → FirstIsDigit xs → FirstIsDigit (xs ++ ys)
first-append [] ys h = absurd h
first-append (x ∷ xs) ys h = h

decimal-first : (f n : ℕ) → FirstIsDigit (decimal f n)
unfolding decimal
decimal-first zero n = omega arith
decimal-first (suc f) n = elim (Bool-cases (ltb n 10)) [
  | inl e ↦ rw e (ground arith)
  | inr e ↦ rw e (first-append (decimal f (n / 10)) _ (decimal-first f (n / 10)))
]

zero-append :
    (xs ys : Bytes) → FirstIsDigit xs → starts_zero xs ≡ false → starts_zero (xs ++ ys) ≡ false
zero-append [] ys h z = absurd h
zero-append (x ∷ xs) ys h z = z

-- A numeral of a number other than 0 has no leading 0.
decimal-lead : (f n : ℕ) → 0 < n → n < 10 ^ suc f → starts_zero (decimal f n) ≡ false
unfolding decimal
decimal-lead zero n p h = ground arith
decimal-lead (suc f) n p h = elim (Bool-cases (ltb n 10)) [
  | inl e ↦ rw e (ground arith)
  | inr e ↦ rw e (
      zero-append (decimal f (n / 10)) _ (decimal-first f (n / 10))
        (decimal-lead f (n / 10) (ground arith) (tenth f n h)))
]

decimal-short : (f n : ℕ) → n < 10 → length (decimal f n) ≡ 1
unfolding decimal
decimal-short zero n h = refl
decimal-short (suc f) n h = ground arith

strtol-digits :
    (xs : Bytes) (n : ℕ)
    → FirstIsDigit xs
    → scan 10 xs 0 ≡ (n, [])
    → n ≤ long_max
    → strtol 10 xs ≡ record { value = pos n; failed = false; rest = [] }
unfolding strtol skip_space magnitude ranged
strtol-digits [] n h e w = absurd h
strtol-digits (c ∷ s) n h e w = ground (arith, digit-IsDigit c h)

-- The base is 10 for a text of digits with no leading 0.
base_ten :
    (xs : Bytes)
    → All IsDigit xs
    → (length xs ≡ 1) ⊎ (starts_zero xs ≡ false)
    → strtol_2_8_10_16 xs ≡ strtol 10 xs
unfolding strtol_2_8_10_16
base_ten [] h o = refl
base_ten (a ∷ []) h o = ground arith
base_ten (a ∷ b ∷ s) h o = ground arith

strtol-decimal :
    (f n : ℕ)
    → n < 10 ^ suc f
    → n ≤ long_max
    → strtol_2_8_10_16 (decimal f n) ≡ record { value = pos n; failed = false; rest = [] }
strtol-decimal f n h w =
    base_ten (decimal f n) (decimal-IsDigit f n) (elim (Bool-cases (ltb n 10)) [
      | inl e ↦ inl (decimal-short f n (ground arith))
      | inr e ↦ inr (decimal-lead f n (ground arith) h)
    ])
    ∙ strtol-digits (decimal f n) n (decimal-first f n) (scan-decimal f n h) w

back-digits : (s : Bytes) → All IsDigit s → trim_back s ≡ s
unfolding trim_back is_white
back-digits [] h = refl
back-digits (c ∷ s) h = ground (arith, back-digits s h.1)

trim-digits : (s : Bytes) → All IsDigit s → trim s ≡ s
unfolding trim trim_front is_white
trim-digits [] h = back-digits [] h
trim-digits (c ∷ s) h =
    let solid : is_white c ≡ false = ground arith in rw solid (back-digits (c ∷ s) h)

open-digits : (s : Bytes) → All IsDigit s → All (λ c. c ≢ hash) s
open-digits [] h = _
open-digits (c ∷ s) h = ((λ e. omega (arith, h.0)), open-digits s h.1)

found-digits :
    (xs : Bytes) (n : ℕ) (is_max : ℤ → Bool) (def : ℤ) (no_def : Bool)
    → FirstIsDigit xs
    → strtol_2_8_10_16 xs ≡ record { value = pos n; failed = false; rest = [] }
    → get_found strtol_2_8_10_16 is_max def no_def (some xs) ≡ got (pos n)
unfolding get_found parsed
found-digits [] n is_max def no_def h e = absurd h
found-digits (c ∷ s) n is_max def no_def h e = rw e refl

-- A number that `add` writes in decimal, up to the largest `long`, is what `getLong` reads for its key
-- from the file that `add` has written, whatever the file held before. The key can stand in a line, and
-- the new lines are whole when read.
pub get_long-add :
    (key : Bytes) (n : ℕ) (def : ℤ) (c : ConfFile) (file : Option Bytes)
    → IsPlain (key, [])
    → n ≤ long_max
    → ((out : List Bytes)
        → rewritten ((key, decimal 9 n) ∷ []) true (read_lines file) ≡ some out
        → All IsLine out)
    → let r = add ((key, decimal 9 n) ∷ []) true complete c file in
      (get_long key def (load r.file)).1 ≡ got (pos n)
unfolding get_long get_x
get_long-add key n def c file plain w whole =
    let val = decimal 9 n in
    let fits : IsPlain (key, val) = record {
      key_open = plain.key_open;
      key_one = plain.key_one;
      val_open = open-digits val (decimal-IsDigit 9 n);
      key_trimmed = plain.key_trimmed;
      val_trimmed = trim-digits val (decimal-IsDigit 9 n);
    } in
    let known : find key ((key, val) ∷ []) ≡ some val =
      unfold find in rw (bytes_eq_refl key) refl in
    let read = load-add key ((key, val) ∷ []) c file (fits, _) ((unfold find in refl), _) whole in
    rw (read.1, known)
      (found-digits val n _ def false (decimal-first 9 n) (strtol-decimal 9 n (omega arith) w))
