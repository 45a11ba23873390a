-- ===== src/Wire/Varints.antt =====
-- The varints of src/tele/sym_line_protocol.h are read back, and only 0 has a zero byte.
use fugu_mppt_firmware.Prelude.{
  ℕ, zero, suc, ◌/◌, ◌^◌, ◌<◌, ◌≡◌, ltb, ◌++◌, All, arith, Bytes, if_cases,
}
use native.Mathlib.Nat.{pow-suc}
use fugu_mppt_firmware.Wire.{put_varint, varint, get_varint}

below : (f v : ℕ) → v < 128 ^ suc (suc f) → v / 128 < 128 ^ suc f
below f v h = omega (arith, pow-suc 128 (suc f))

get-put :
    (f v : ℕ) (rest : Bytes) → v < 128 ^ suc f → get_varint (put_varint f v ++ rest) ≡ (v, rest)
unfolding get_varint put_varint
get-put zero v rest h = ground arith
get-put (suc f) v rest h = ground (arith, get-put f (v / 128) rest, below f v h)

-- A number of 64 bits is read back from its varint, and what is behind it is left.
pub get_varint-varint :
    (v : ℕ) (rest : Bytes) → v < 18446744073709551616 → get_varint (varint v ++ rest) ≡ (v, rest)
get_varint-varint v rest h = get-put 9 v rest (omega (arith, h))

put-positive : (f v : ℕ) → 0 < v → v < 128 ^ suc f → All (λ b. 0 < b) (put_varint f v)
unfolding put_varint
put-positive zero v p h = (p, _)
put-positive (suc f) v p h =
    if_cases (All (λ b. 0 < b)) (ltb v 128) (λ _. (p, _))
      (λ long. (omega arith, put-positive f (v / 128) (ground arith) (below f v h)))

-- No byte of the varint of another number than 0 is 0: where a symbol's number is expected, 0 ends the
-- list.
pub varint-positive : (v : ℕ) → 0 < v → v < 18446744073709551616 → All (λ b. 0 < b) (varint v)
varint-positive v p h = put-positive 9 v p (omega (arith, h))
