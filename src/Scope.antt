-- ===== src/Scope.antt =====
-- `class Scope` and `class ScopeDecoder` of src/tele/scope.h: samples of 12 bits packed into two
-- buffers that the network task sends, and their decoder. A buffer is the list of its bytes below
-- `bufPos`, the only ones that are read.
pub mod Stream
pub mod Decoding
pub mod Tests
use fugu_mppt_firmware.Prelude.{
  ℕ, zero, suc, ◌+◌, ◌-◌, ◌*◌, ◌/◌, ◌%◌, Bool, true, false, not, ◌&&◌, ◌||◌, ◌==◌, ltb, leb,
  if◌then◌else◌, Option, none, some, List, [], ◌∷◌, ◌++◌, length, take, Bytes, ◌>>=◌,
}

-- A channel's number and its 12 bits.
abbrev pub Sample : Type 0
Sample = ℕ × ℕ

abbrev pub buf_size : ℕ
buf_size = 2048

-- `Data12Ch4`, with the low byte first: a bit 0, three bits of channel and 12 bits of data.
abbrev pub word : Sample → ℕ
word x = x.0 % 8 * 2 + x.1 % 4096 * 16

abbrev pub data12 : Sample → Bytes
data12 x = word x % 256 ∷ word x / 256 ∷ []

pub record Scope : Type 0 where
  pub first : Bytes  -- `buf[0]`
  pub second : Bytes
  -- `bufSel` is 1
  pub sel_second : Bool
  pub connected : Bool
  pub dropping : Bool
  -- the notifications that wait for the network task
  pub pending : ℕ
  -- what the client was given to write, what it took of that, and the samples that were taken
  pub handed : Bytes
  pub sent : Bytes
  pub taken : List Sample

abbrev pub current : Scope → Bytes
current s = if s.sel_second then s.second else s.first

abbrev pub other : Scope → Bytes
other s = if s.sel_second then s.first else s.second

abbrev pub set_current : Bytes → Scope → Scope
set_current b s = if s.sel_second then record s { second = b } else record s { first = b }

abbrev pub set_other : Bytes → Scope → Scope
set_other b s = if s.sel_second then record s { first = b } else record s { second = b }

abbrev pub is_empty : Bytes → Bool
is_empty [] = true
is_empty (c ∷ s) = false

-- The end of `addSample12`.
unfoldable pub put : Sample → Scope → Scope
put x s = let s' = set_current (current s ++ data12 x) s in record s' { taken = s.taken ++ x ∷ [] }

-- The buffers are swapped where the next one is free; else the sample is dropped.
unfoldable pub add_sample12 : Sample → Scope → Scope
add_sample12 x s =
    if not s.connected
    then s
    else if ltb buf_size (length (current s) + 2)
    then (if is_empty (other s)
        then put x
            (record s { sel_second = not s.sel_second; dropping = false; pending = s.pending + 1 })
        else record s { dropping = true })
    else put x s

-- `netLoop`; it has subscribed to the notification before the first sample is taken. `accepted` is the result
-- of `client.write`, which takes the first so many bytes; the buffer is emptied whatever it is. The value
-- is the result.
unfoldable pub net_loop : (accepted : ℕ) → Scope → Scope × Bool
net_loop accepted s =
    if ltb buf_size (length s.first) || ltb buf_size (length s.second)
    then (record s { first = []; second = []; sel_second = false }, false)
    else if s.pending == 0
    then (s, false)
    else (
      record (set_other [] s) {
        handed = s.handed ++ other s;
        sent = s.sent ++ take accepted (other s);
        pending = 0;
      },
      true,
    )

-- What the two tasks do, one after the other, and whether a client is connected.
pub data Event : Type 0 where
  sampled : Sample → Event
  looped : (accepted : ℕ) → Event
  linked : Bool → Event

unfoldable pub step : Event → Scope → Scope
step (sampled x) s = add_sample12 x s
step (looped accepted) s = (net_loop accepted s).0
step (linked on) s = record s { connected = on }

unfoldable pub steps : List Event → Scope → Scope
steps [] s = s
steps (e ∷ es) s = steps es (step e s)

-- The decoder: the bytes that wait in its buffer, and what `onInt` was given.
pub record Decoder : Type 0 where
  pub waiting : Bytes
  pub heard : List Sample

abbrev pub decoder_size : ℕ
decoder_size = 128

-- `readBuffer`: what `onInt` is given, and the bytes that are left. `none` is a whole word of
-- another kind, which `addSample12` never writes and whose decoding is not modelled.
unfoldable pub read_buffer : Bytes → Option (List Sample × Bytes)
read_buffer [] = some ([], [])
read_buffer (a ∷ []) = some ([], a ∷ [])
read_buffer (a ∷ b ∷ s) =
    let rest = read_buffer s in
    if a % 2 == 0
    then (elim rest [
      | none ↦ none
      | some (xs, left) ↦ some ((a / 2 % 8, (a + b * 256) / 16) ∷ xs, left)
    ])
    else if ltb (length s) 2
    then some ([], a ∷ b ∷ s)
    else none

-- The bytes that stay in the buffer after it was read, where `left` was not.
abbrev pub kept : (whole left : Bytes) → Bytes
kept whole left = if is_empty left then whole else left

-- `write`. `none` is also a write behind the end of the buffer.
unfoldable pub write : Bytes → Decoder → Option Decoder
write bytes d =
    if is_empty bytes
    then some d
    else if not (is_empty d.waiting) || ltb (length bytes) 2
    then (if ltb decoder_size (length d.waiting + length bytes)
        then none
        else (read_buffer (d.waiting ++ bytes) >>= (λ r.
            some (record { waiting = kept (d.waiting ++ bytes) r.1; heard = d.heard ++ r.0 }))))
    else (read_buffer bytes >>= (λ r.
        if ltb decoder_size (length r.1)
        then none
        else some (record { waiting = r.1; heard = d.heard ++ r.0 })))

unfoldable pub writes : List Bytes → Decoder → Option Decoder
writes [] d = some d
writes (c ∷ cs) d = write c d >>= writes cs
