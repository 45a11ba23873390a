-- ===== src/Signal/Sampled.antt =====
-- `MinSampler<uint8_t, 15>` of src/mppt.h: the least index of a limiting controller between two
-- telemetry points, and 15 for none.
use fugu_mppt_firmware.Prelude.{
  ℕ, ◌≡◌, refl, Bool, arith, ltb, ◌==◌, if◌then◌else◌, min, List, ◌∙◌, [], ◌∷◌, Option, none, some,
}

abbrev pub none_sampled : ℕ
none_sampled = 15

unfoldable pub add : ℕ → ℕ → ℕ
add v least = if ltb v least then v else least

unfoldable pub empty : ℕ → Bool
empty least = least == none_sampled

unfoldable pub try_get : ℕ → Option ℕ
try_get least = if least == none_sampled then none else some least

-- The value, and the sampler after the reset.
unfoldable pub pop : ℕ → ℕ × ℕ
pop least = (least, none_sampled)

unfoldable pub add_all : List ℕ → ℕ → ℕ
add_all [] least = least
add_all (v ∷ vs) least = add_all vs (add v least)

abbrev pub least_of : List ℕ → ℕ → ℕ
least_of [] bound = bound
least_of (v ∷ vs) bound = min v (least_of vs bound)

least_of-add : (vs : List ℕ) (v least : ℕ) → least_of vs (add v least) ≡ min v (least_of vs least)
unfolding add
least_of-add [] v least = ground arith
least_of-add (w ∷ vs) v least = omega (arith, least_of-add vs v least)

-- What the sampler holds after any samples is the least of them and of what it held before.
pub add_all-least : (vs : List ℕ) (least : ℕ) → add_all vs least ≡ least_of vs least
unfolding add_all
add_all-least [] least = refl
add_all-least (v ∷ vs) least = add_all-least vs (add v least) ∙ least_of-add vs v least
