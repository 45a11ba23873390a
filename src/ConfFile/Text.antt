-- ===== src/ConfFile/Text.antt =====
-- The text functions that src/conf.h uses: its `trim`, and of the library `find_first_of`, `substr`
-- and `fgets`.
use fugu_mppt_firmware.Prelude.{
  ℕ, ◌-◌, Bool, true, false, ◌&&◌, ◌||◌, ◌==◌, leb, if◌then◌else◌, Option, none, some, List, [],
  ◌∷◌, Bytes,
}

abbrev pub newline : ℕ
newline = 10

-- `' '`, `'\t'`, `'\n'`, `'\v'`, `'\f'`, `'\r'` and `'\0'`
unfoldable pub is_white : ℕ → Bool
is_white c = c == 32 || leb 9 c && leb c 13 || c == 0

abbrev pub is_empty : Bytes → Bool
is_empty [] = true
is_empty (c ∷ s) = false

-- The loop of `a`: it stops at the first byte that is no white space.
unfoldable pub trim_front : Bytes → Bytes
trim_front [] = []
trim_front (c ∷ s) = let rest = trim_front s in if is_white c then rest else c ∷ s

-- The loop of `b`: it goes down to the last byte that is no white space.
unfoldable pub trim_back : Bytes → Bytes
trim_back [] = []
trim_back (c ∷ s) = let rest = trim_back s in if is_empty rest && is_white c then [] else c ∷ rest

unfoldable pub trim : Bytes → Bytes
trim s = trim_back (trim_front s)

-- `s.substr(0, s.find_first_of(x))`; the whole text where there is no `x`.
unfoldable pub before : ℕ → Bytes → Bytes
before x [] = []
before x (c ∷ s) = let rest = before x s in if c == x then [] else c ∷ rest

-- `s.substr(s.find_first_of(x))`; empty where there is no `x`.
unfoldable pub behind : ℕ → Bytes → Bytes
behind x [] = []
behind x (c ∷ s) = let rest = behind x s in if c == x then c ∷ s else rest

-- The texts before and after the first `x`.
unfoldable pub split_at : ℕ → Bytes → Option (Bytes × Bytes)
split_at x [] = none
split_at x (c ∷ s) =
    let rest = split_at x s in
    if c == x then some ([], s) else elim rest [ none ↦ none | some (a, b) ↦ some (c ∷ a, b) ]

-- A buffer as a C string ends at its first NUL.
abbrev pub c_string : Bytes → Bytes
c_string s = before 0 s

-- `while (fgets(buf, sizeof(buf), f))` with 256 bytes: each read ends behind a newline or at 255
-- bytes; `room` is what the present read may still take.
abbrev pub push : ℕ → List Bytes → List Bytes
push c [] = (c ∷ []) ∷ []
push c (l ∷ ls) = (c ∷ l) ∷ ls

unfoldable pub gets : (room : ℕ) → Bytes → List Bytes
gets room [] = []
gets room (c ∷ s) =
    let ends = c == newline || leb room 1 in
    let rest = gets (if ends then 255 else room - 1) s in
    if ends then (c ∷ []) ∷ rest else push c rest

-- `while (!line.empty() && (line.back() == '\n' || line.back() == '\r')) line.pop_back()`
unfoldable pub strip_newline : Bytes → Bytes
strip_newline [] = []
strip_newline (c ∷ s) =
    let rest = strip_newline s in
    if is_empty rest && (c == newline || c == 13) then [] else c ∷ rest
