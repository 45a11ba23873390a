-- ===== src/ConfFile/Numbers.antt =====
-- The numbers of `ConfFile` of src/conf.h: `getX`, `strtol_2_8_10_16`, `getLong` and `getByte`, over
-- the library's `strtol`.
use fugu_mppt_firmware.Prelude.{
  ℕ, zero, suc, ◌+◌, ◌-◌, ◌*◌, ◌%◌, Bool, true, false, not, ◌&&◌, ◌||◌, ◌==◌, ltb, leb, u8,
  if◌then◌else◌, Option, none, some, List, [], ◌∷◌, length, Bytes,
}
use fugu_mppt_firmware.Prelude.Int.{ℤ, pos, negsuc, sub_ℕ}
use fugu_mppt_firmware.ConfFile.{ConfFile, find, mark_accessed}
use fugu_mppt_firmware.ConfFile.Text.{is_empty}

-- What a function of the `strto` family gives: the number, whether `errno` is set, and the text from
-- `endptr` on.
pub record Parsed (T : Type 0) : Type 0 where
  pub value : T
  pub failed : Bool
  pub rest : Bytes

-- The value of a digit, up to base 36.
unfoldable pub digit : ℕ → ℕ
digit c =
    if leb 48 c && leb c 57
    then c - 48
    else if leb 97 c && leb c 122
    then c - 87
    else if leb 65 c && leb c 90
    then c - 55
    else 36

-- The number that the digits from here on continue, and what follows them.
unfoldable pub scan : (base : ℕ) → Bytes → (acc : ℕ) → ℕ × Bytes
scan base [] acc = (acc, [])
scan base (c ∷ s) acc =
    let more = scan base s (acc * base + digit c) in
    if ltb (digit c) base then more else (acc, c ∷ s)

-- `isspace`
abbrev pub is_space : ℕ → Bool
is_space c = c == 32 || leb 9 c && leb c 13

unfoldable pub skip_space : Bytes → Bytes
skip_space [] = []
skip_space (c ∷ s) = let rest = skip_space s in if is_space c then rest else c ∷ s

-- `LONG_MAX` of the 32-bit target
abbrev pub long_max : ℕ
long_max = 2147483647

-- The value of a magnitude with its sign, or the nearest one and the error.
unfoldable pub ranged : (negative : Bool) → ℕ → Bytes → Parsed ℤ
ranged false n rest =
    if leb n long_max
    then record { value = pos n; failed = false; rest = rest }
    else record { value = pos long_max; failed = true; rest = rest }
ranged true n rest =
    if leb n (long_max + 1)
    then record { value = sub_ℕ 0 n; failed = false; rest = rest }
    else record { value = negsuc long_max; failed = true; rest = rest }

-- Behind the sign; `s` is the whole text, which is left over where there is no digit.
unfoldable pub magnitude : (base : ℕ) (negative : Bool) → Bytes → Bytes → Parsed ℤ
magnitude base negative s [] = record { value = pos 0; failed = false; rest = s }
magnitude base negative s (c ∷ t) =
    if ltb (digit c) base
    then (let r = scan base (c ∷ t) 0 in ranged negative r.0 r.1)
    else record { value = pos 0; failed = false; rest = s }

-- The prefix `0x`, which base 16 may have.
unfoldable pub skip_0x : Bytes → Bytes
skip_0x (zero' ∷ x ∷ c ∷ t) =
    if zero' == 48 && (x == 120 || x == 88) && ltb (digit c) 16 then c ∷ t else zero' ∷ x ∷ c ∷ t
skip_0x s = s

abbrev pub signed_text : Bytes → Bool × Bytes
signed_text [] = (false, [])
signed_text (c ∷ t) =
    if c == b'-' then (true, t) else if c == b'+' then (false, t) else (false, c ∷ t)

unfoldable pub strtol : (base : ℕ) → Bytes → Parsed ℤ
strtol base s =
    let (negative, t) = signed_text (skip_space s) in
    magnitude base negative s (if base == 16 then skip_0x t else t)

unfoldable pub has : ℕ → Bytes → Bool
has x [] = false
has x (c ∷ s) = c == x || has x s

abbrev pub starts : ℕ → ℕ → Bytes → Bool
starts x y [] = false
starts x y (a ∷ []) = false
starts x y (a ∷ b ∷ s) = a == x && b == y

abbrev pub drop : ℕ → Bytes → Bytes
drop zero s = s
drop (suc n) [] = []
drop (suc n) (c ∷ s) = drop n s

abbrev pub starts_zero : Bytes → Bool
starts_zero [] = false
starts_zero (c ∷ s) = c == 48

unfoldable pub strtol_2_8_10_16 : Bytes → Parsed ℤ
strtol_2_8_10_16 s =
    if ltb 2 (length s) && starts b'0' b'b' s
    then strtol 2 (drop 2 s)
    else if ltb 2 (length s) && starts b'0' b'x' s
    then strtol 16 (drop 2 s)
    else if ltb 1 (length s) && starts_zero s && not (has b'.' s) && not (has b'e' s)
    then strtol 8 (drop 1 s)
    else strtol 10 s

-- A value, or the exception.
pub data Got (T : Type 0) : Type 0 where
  got : T → Got T
  empty_value strto_error additional_chars not_found : Got T

-- `getX` on what was found. `is_max` is the comparison of the default with the largest value of `T`.
module _ {T : Type 0} (strto : Bytes → Parsed T) (is_max : T → Bool) where
  unfoldable pub parsed : Parsed T → Got T
  parsed p =
      if p.failed then strto_error else if is_empty p.rest then got p.value else additional_chars

  unfoldable pub get_found : (def : T) (no_def : Bool) → Option Bytes → Got T
  get_found def no_def none = if not no_def && is_max def then not_found else got def
  get_found def no_def (some v) = if is_empty v then empty_value else parsed (strto v)

  unfoldable pub get_x : (key : Bytes) (def : T) (no_def : Bool) → ConfFile → ConfFile × Got T
  get_x key def no_def c = (mark_accessed key c, get_found def no_def (find key c.entries))

abbrev pub is_long_max : ℤ → Bool
is_long_max (pos n) = n == long_max
is_long_max (negsuc n) = false

unfoldable pub get_long : (key : Bytes) (def : ℤ) → ConfFile → ConfFile × Got ℤ
get_long key def c = get_x strtol_2_8_10_16 is_long_max key def false c

-- The conversion of a `long` to `uint8_t`.
abbrev pub u8_of_int : ℤ → ℕ
u8_of_int (pos n) = u8 n
u8_of_int (negsuc n) = u8 (255 - n % 256)

abbrev pub byte_of : Got ℤ → Got ℕ
byte_of (got z) = got (u8_of_int z)
byte_of empty_value = empty_value
byte_of strto_error = strto_error
byte_of additional_chars = additional_chars
byte_of not_found = not_found

-- `getByte(key)` has the default 255.
unfoldable pub get_byte : (key : Bytes) (def : Option ℕ) → ConfFile → ConfFile × Got ℕ
get_byte key none c =
    let r = get_x strtol_2_8_10_16 is_long_max key (pos 255) true c in (r.0, byte_of r.1)
get_byte key (some def) c =
    let r = get_x strtol_2_8_10_16 is_long_max key (pos def) false c in (r.0, byte_of r.1)

abbrev pub found_string : (def found : Option Bytes) → Got Bytes
found_string def (some v) = got v
found_string (some d) none = got d
found_string none none = not_found

-- `getString` with a default and without.
unfoldable pub get_string : (key : Bytes) (def : Option Bytes) → ConfFile → ConfFile × Got Bytes
get_string key def c = (mark_accessed key c, found_string def (find key c.entries))

-- `warnUnknownKeys`: the keys that nothing has asked for.
unfoldable pub unknown_keys : List (Bytes × Bytes) → ConfFile → List Bytes
unknown_keys [] c = []
unknown_keys ((key, _) ∷ m) c =
    let rest = unknown_keys m c in
    if fugu_mppt_firmware.ConfFile.contains key c.accessed then rest else key ∷ rest
