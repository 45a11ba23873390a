-- ===== src/Scope/Tests.antt =====
-- The scope stream of src/tele/scope.h at concrete samples.
use fugu_mppt_firmware.Prelude.{
  ℕ, zero, suc, ◌≡◌, refl, true, false, some, List, [], ◌∷◌, arith, Bytes, ◌>>=◌,
}
use fugu_mppt_firmware.Scope.{Scope, Sample, Event, sampled, looped, linked, steps, write, writes}
use fugu_mppt_firmware.Scope.Stream.{IsStream, encode, steps-IsStream}
use fugu_mppt_firmware.Scope.Decoding.{decode-encode, samples_of, idle, completed_piece_repeats}

abbrev samples : List Sample
samples = (1, 4095) ∷ (2, 17) ∷ []

abbrev fresh : Scope
fresh = record {
  first = [];
  second = [];
  sel_second = false;
  connected = true;
  dropping = false;
  pending = 0;
  handed = [];
  sent = [];
  taken = [];
}

fresh-IsStream : IsStream fresh
unfolding encode
fresh-IsStream = record {
  spelled = refl;
  current_fits = omega arith;
  other_fits = omega arith;
  sent_le = omega arith;
  sent_whole = λ e. refl;
}

abbrev burst : ℕ → List Event → List Event
burst zero es = es
burst (suc n) es = sampled (1, 4095) ∷ burst n es

-- A buffer is filled, and of its 2048 bytes the client takes 2000.
abbrev events : List Event
events = linked true ∷ burst 1025 (looped 2000 ∷ sampled (2, 17) ∷ [])

steps-IsStream_example : IsStream (steps events fresh)
steps-IsStream_example = steps-IsStream events fresh fresh-IsStream

abbrev pieces : List Bytes
pieces = [] ∷ (242 ∷ 255 ∷ []) ∷ (20 ∷ 1 ∷ []) ∷ []

encodes : encode samples ≡ 242 ∷ 255 ∷ 20 ∷ 1 ∷ []
unfolding encode
encodes = refl

decode-encode_example : writes pieces (idle []) ≡ some (idle samples)
unfolding encode
decode-encode_example = decode-encode samples pieces (omega arith) refl (omega arith)

abbrev zeros : ℕ → Bytes
zeros zero = []
zeros (suc n) = 0 ∷ zeros n

-- The sample (1, 4095) was cut after its first byte; the sample (2, 17) follows.
completed_piece_repeats_example :
    (write (255 ∷ []) (record { waiting = 242 ∷ []; heard = [] })
      >>= write (20 ∷ 1 ∷ [])
      >>= (λ r. some r.heard))
    ≡ some ((1, 4095) ∷ (1, 4095) ∷ (2, 17) ∷ [])
unfolding samples_of
completed_piece_repeats_example =
    completed_piece_repeats (255 ∷ []) (20 ∷ 1 ∷ []) (record { waiting = 242 ∷ []; heard = [] })
      refl refl refl (omega arith) (refl, (refl, _)) refl
