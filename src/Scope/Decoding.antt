-- ===== src/Scope/Decoding.antt =====
-- `ScopeDecoder` of src/tele/scope.h gives the samples back, however the stream is cut.
use fugu_mppt_firmware.Prelude.{
  ◌+◌, ◌*◌, ◌/◌, ◌%◌, ◌<◌, ◌≤◌, ◌≡◌, refl, ◌∙◌, true, false, ltb, ◌==◌, none, some, List, [], ◌∷◌,
  ◌++◌, length, length-append, arith, Bytes, All, ◌>>=◌,
}
use mathlib.Core.List.{append-nil, append_assoc}
use fugu_mppt_firmware.Scope.{
  Sample, word, Decoder, decoder_size, read_buffer, kept, write, writes, is_empty,
}
use fugu_mppt_firmware.Scope.Stream.{encode}

-- All words are samples of 12 bits: their first bytes are even.
abbrev pub IsEven : Bytes → Type 0
IsEven [] = Unit
IsEven (a ∷ []) = a % 2 ≡ 0
IsEven (a ∷ b ∷ s) = (a % 2 ≡ 0) × IsEven s

-- The samples of whole words, and the byte behind them.
unfoldable pub samples_of : Bytes → List Sample
samples_of [] = []
samples_of (a ∷ []) = []
samples_of (a ∷ b ∷ s) = (a / 2 % 8, (a + b * 256) / 16) ∷ samples_of s

unfoldable pub rest_of : Bytes → Bytes
rest_of [] = []
rest_of (a ∷ []) = a ∷ []
rest_of (a ∷ b ∷ s) = rest_of s

read_even : (s : Bytes) → IsEven s → read_buffer s ≡ some (samples_of s, rest_of s)
unfolding read_buffer samples_of rest_of
read_even [] h = refl
read_even (a ∷ []) h = refl
read_even (a ∷ b ∷ s) h =
    let even : (a % 2 == 0) ≡ true = ground (arith, h.0) in rw (read_even s h.1, even) refl

samples_of-append :
    (p c : Bytes) → samples_of (p ++ c) ≡ samples_of p ++ samples_of (rest_of p ++ c)
unfolding samples_of rest_of
samples_of-append [] c = refl
samples_of-append (a ∷ []) c = refl
samples_of-append (a ∷ b ∷ p) c = rw (samples_of-append p c) refl

IsEven-first : (p c : Bytes) → IsEven (p ++ c) → IsEven p
IsEven-first [] c h = _
IsEven-first (a ∷ []) [] h = h
IsEven-first (a ∷ []) (b ∷ c) h = h.0
IsEven-first (a ∷ b ∷ p) c h = (h.0, IsEven-first p c h.1)

-- A piece of whole words.
abbrev pub IsWhole : Bytes → Type 0
IsWhole c = length c % 2 ≡ 0

rest_of-IsWhole : (s : Bytes) → IsWhole s → rest_of s ≡ []
unfolding rest_of
rest_of-IsWhole [] h = refl
rest_of-IsWhole (a ∷ []) h = absurd (omega (arith, h))
rest_of-IsWhole (a ∷ b ∷ s) h = rest_of-IsWhole s (omega (arith, h))

IsEven-rest : (p c : Bytes) → IsWhole p → IsEven (p ++ c) → IsEven c
IsEven-rest [] c w h = h
IsEven-rest (a ∷ []) c w h = absurd (omega (arith, w))
IsEven-rest (a ∷ b ∷ p) c w h = IsEven-rest p c (omega (arith, w)) h.1

empty_lem : (b : Bytes) → is_empty b ≡ true → b ≡ []
empty_lem [] h = refl
empty_lem (c ∷ b) h = cc

abbrev pub idle : List Sample → Decoder
idle xs = record { waiting = []; heard = xs }

write-IsWhole :
    (c : Bytes) (xs : List Sample)
    → IsEven c
    → IsWhole c
    → write c (idle xs) ≡ some (idle (xs ++ samples_of c))
unfolding write samples_of
write-IsWhole [] xs even whole = rw append-nil refl
write-IsWhole (a ∷ []) xs even whole = absurd (omega (arith, whole))
write-IsWhole (a ∷ b ∷ c) xs even whole =
    let long : ltb (length (a ∷ b ∷ c)) 2 ≡ false = ground arith in
    rw (long, read_even (a ∷ b ∷ c) even, rest_of-IsWhole (a ∷ b ∷ c) whole) refl

abbrev pub concat : List Bytes → Bytes
concat [] = []
concat (c ∷ cs) = c ++ concat cs

writes-IsWhole :
    (cs : List Bytes) (xs : List Sample)
    → IsEven (concat cs)
    → All IsWhole cs
    → writes cs (idle xs) ≡ some (idle (xs ++ samples_of (concat cs)))
unfolding writes
writes-IsWhole [] xs even whole = unfold samples_of in rw append-nil refl
writes-IsWhole (c ∷ cs) xs even whole =
    rw (write-IsWhole c xs (IsEven-first c (concat cs) even) whole.0) (
      writes-IsWhole cs (xs ++ samples_of c) (IsEven-rest c (concat cs) whole.0 even) whole.1
      ∙ (rw (samples_of-append c (concat cs), rest_of-IsWhole c whole.0, append_assoc) refl))

abbrev pub IsSample : Sample → Type 0
IsSample x = (x.0 < 8) × (x.1 < 4096)

encode-IsEven : (xs : List Sample) → IsEven (encode xs)
unfolding encode
encode-IsEven [] = _
encode-IsEven (x ∷ xs) = (omega arith, encode-IsEven xs)

samples_of-encode : (xs : List Sample) → All IsSample xs → samples_of (encode xs) ≡ xs
unfolding samples_of encode
samples_of-encode [] h = refl
samples_of-encode ((ch, v) ∷ xs) h =
    let ch_back : word (ch, v) % 256 / 2 % 8 ≡ ch = omega (arith, h.0.0) in
    let v_back : (word (ch, v) % 256 + word (ch, v) / 256 * 256) / 16 ≡ v =
      omega (arith, h.0.0, h.0.1) in
    rw (ch_back, v_back, samples_of-encode xs h.1) refl

-- The encoding of samples, cut into pieces of whole samples: the decoder gives all samples back in their
-- order, and nothing is left.
pub decode-encode :
    (xs : List Sample) (cs : List Bytes)
    → All IsSample xs
    → concat cs ≡ encode xs
    → All IsWhole cs
    → writes cs (idle []) ≡ some (idle xs)
decode-encode xs cs fit cut whole =
    writes-IsWhole cs [] (rw cut (encode-IsEven xs)) whole
    ∙ (rw (cut, samples_of-encode xs fit) refl)

filled : (b : Bytes) → 0 < length b → is_empty b ≡ false
filled [] h = absurd (omega (arith, h))
filled (c ∷ b) h = refl

filled_length : (b : Bytes) → is_empty b ≡ false → 0 < length b
filled_length [] h = cc
filled_length (c ∷ b) h = omega arith

-- A piece of 128 bytes or more, which `update` may pass on, is written behind the end of the buffer
-- if a byte waits there.
pub long_piece_overruns :
    (c : Bytes) (d : Decoder)
    → is_empty d.waiting ≡ false
    → decoder_size ≤ length c
    → write c d ≡ none
unfolding write
long_piece_overruns c d waits long =
    ground (arith, filled c (omega (arith, long)), filled_length d.waiting waits)

write-joined :
    (c : Bytes) (d : Decoder)
    → is_empty d.waiting ≡ false
    → is_empty c ≡ false
    → length d.waiting + length c ≤ decoder_size
    → IsEven (d.waiting ++ c)
    → write c d
      ≡ some (record {
        waiting = kept (d.waiting ++ c) (rest_of (d.waiting ++ c));
        heard = d.heard ++ samples_of (d.waiting ++ c);
      })
unfolding write
write-joined c d waits more fits even =
    let room : ltb decoder_size (length d.waiting + length c) ≡ false = ground arith in
    rw (more, waits, room, read_even (d.waiting ++ c) even) refl

filled-append : (b c : Bytes) → is_empty b ≡ false → is_empty (b ++ c) ≡ false
filled-append [] c h = cc
filled-append (x ∷ b) c h = refl

-- A piece that completes the samples that a waiting byte began stays in the buffer: the next piece
-- gives those samples a second time. Both pieces are not empty, the three parts fit the buffer and
-- are samples of 12 bits.
pub completed_piece_repeats :
    (c next : Bytes) (d : Decoder)
    → is_empty d.waiting ≡ false
    → is_empty c ≡ false
    → is_empty next ≡ false
    → length d.waiting + length c + length next ≤ decoder_size
    → IsEven ((d.waiting ++ c) ++ next)
    → IsWhole (d.waiting ++ c)
    → (write c d >>= write next >>= (λ r. some r.heard))
      ≡ some (
          (d.heard ++ samples_of (d.waiting ++ c))
          ++ (samples_of (d.waiting ++ c) ++ samples_of next))
completed_piece_repeats c next d waits more more' fits even whole =
    let now = d.waiting ++ c in
    let first = write-joined c d waits more (omega (arith, fits)) (IsEven-first now next even) in
    let second =
      write-joined next (record { waiting = now; heard = d.heard ++ samples_of now })
        (filled-append d.waiting c waits) more' (omega (arith, fits, length-append d.waiting c))
        even in
    let again : samples_of (now ++ next) ≡ samples_of now ++ samples_of next =
      samples_of-append now next ∙ (rw (rest_of-IsWhole now whole) refl) in
    rw (first, rest_of-IsWhole now whole, second, again) refl
