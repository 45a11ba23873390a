-- ===== src/Scope/Stream.antt =====
-- The buffers of `Scope` of src/tele/scope.h lose and reorder nothing that they took, up to what the client
-- is given to write.
use fugu_mppt_firmware.Prelude.{
  ℕ, ◌+◌, ◌≤◌, ◌≡◌, refl, sym, ap, ◌∙◌, Bool, true, false, not, ltb, List, [], ◌∷◌, ◌++◌, length,
  take, length-append, length-take, take_whole, arith, Bytes, if_cases, ◌||◌, ◌==◌,
}
use mathlib.Core.List.{append-nil, append_assoc}
use fugu_mppt_firmware.Scope.{
  Scope, Sample, data12, buf_size, current, other, set_other, is_empty, put, add_sample12, net_loop,
  Event, sampled, looped, linked, step, steps,
}

unfoldable pub encode : List Sample → Bytes
encode [] = []
encode (x ∷ xs) = data12 x ++ encode xs

encode-append : (xs ys : List Sample) → encode (xs ++ ys) ≡ encode xs ++ encode ys
unfolding encode
encode-append [] ys = refl
encode-append (x ∷ xs) ys = rw (encode-append xs ys) refl

-- What the client was given, then the buffer that is to be sent, then the one that is written, spell the
-- samples that were taken; no buffer is longer than its array; and the client took no more than it was
-- given, and all of it if it took as many bytes.
pub record IsStream (s : Scope) : Type 0 where
  pub spelled : s.handed ++ (other s ++ current s) ≡ encode s.taken
  pub current_fits : length (current s) ≤ buf_size
  pub other_fits : length (other s) ≤ buf_size
  pub sent_le : length s.sent ≤ length s.handed
  pub sent_whole : length s.sent ≡ length s.handed → s.sent ≡ s.handed

append_last : (a b c d e : Bytes) → a ++ (b ++ c) ≡ e → a ++ (b ++ (c ++ d)) ≡ e ++ d
append_last a b c d e h =
    ap (a ++◌) (sym (append_assoc b c d)) ∙ sym (append_assoc a (b ++ c) d) ∙ ap (λ x. x ++ d) h

-- What `put` does to the two buffers.
put-buffers :
    (x : Sample) (s : Scope)
    → (current (put x s) ≡ current s ++ data12 x)
      × (other (put x s) ≡ other s)
      × ((put x s).handed ≡ s.handed)
      × ((put x s).sent ≡ s.sent)
      × ((put x s).taken ≡ s.taken ++ x ∷ [])
unfolding put
put-buffers x s = ground arith

put-IsStream :
    (x : Sample) (s : Scope) → IsStream s → length (current s) + 2 ≤ buf_size → IsStream (put x s)
put-IsStream x s i room =
    let (c, o, t, v, k) = put-buffers x s in
    record {
      spelled =
          rw (c, o, t, k, encode-append)
            (append_last s.handed (other s) (current s) (data12 x) (encode s.taken) i.spelled
              ∙ (unfold encode in refl));
      current_fits = rw c (omega (arith, length-append (current s) (data12 x), room));
      other_fits = rw o i.other_fits;
      sent_le = rw (t, v) i.sent_le;
      sent_whole = rw (t, v) i.sent_whole;
    }

abbrev swapped : ℕ → Scope → Scope
swapped n s = record s { sel_second = not s.sel_second; dropping = false; pending = n }

swapped-buffers :
    (n : ℕ) (s : Scope) → (current (swapped n s) ≡ other s) × (other (swapped n s) ≡ current s)
swapped-buffers n s = ground arith

swapped-IsStream : (n : ℕ) (s : Scope) → IsStream s → other s ≡ [] → IsStream (swapped n s)
swapped-IsStream n s i empty =
    let (c, o) = swapped-buffers n s in
    record {
      spelled = rw (c, o, empty, append-nil) (rw empty at i.spelled);
      current_fits = rw c i.other_fits;
      other_fits = rw o i.current_fits;
      sent_le = i.sent_le;
      sent_whole = i.sent_whole;
    }

empty_lem : (b : Bytes) → is_empty b ≡ true → b ≡ []
empty_lem [] h = refl
empty_lem (c ∷ b) h = cc

add_sample12-IsStream : (x : Sample) (s : Scope) → IsStream s → IsStream (add_sample12 x s)
unfolding add_sample12
add_sample12-IsStream x s i =
    if_cases IsStream (not s.connected) (λ _. i)
      (λ _.
        if_cases IsStream (ltb buf_size (length (current s) + 2))
          (λ full.
            if_cases IsStream (is_empty (other s))
              (λ free.
                let empty = empty_lem (other s) free in
                put-IsStream x (swapped (s.pending + 1) s)
                  (swapped-IsStream (s.pending + 1) s i empty)
                  (rw ((swapped-buffers (s.pending + 1) s).0, empty) (omega arith)))
              (λ busy. record {
                spelled = i.spelled;
                current_fits = i.current_fits;
                other_fits = i.other_fits;
                sent_le = i.sent_le;
                sent_whole = i.sent_whole;
              }))
          (λ room. put-IsStream x s i (ground arith)))

-- One write: the client took no more than it was given, and all of it if it took as many bytes.
written-le :
    (n : ℕ) (sent handed more : Bytes)
    → length sent ≤ length handed
    → length (sent ++ take n more) ≤ length (handed ++ more)
written-le n sent handed more h =
    omega
      (arith, h, length-append sent (take n more), length-append handed more, length-take n more)

written-whole :
    (n : ℕ) (sent handed more : Bytes)
    → length sent ≤ length handed
    → (length sent ≡ length handed → sent ≡ handed)
    → length (sent ++ take n more) ≡ length (handed ++ more)
    → sent ++ take n more ≡ handed ++ more
written-whole n sent handed more le whole h =
    let all = length-append sent (take n more) in
    let given = length-append handed more in
    let fits = length-take n more in
    let before : length sent ≡ length handed = omega (arith, h, le, all, given, fits) in
    let now : length (take n more) ≡ length more = omega (arith, h, le, all, given, fits) in
    rw (take_whole n more now, whole before) refl

abbrev loop_sent : ℕ → Scope → Scope
loop_sent n s = record (set_other [] s) {
  handed = s.handed ++ other s;
  sent = s.sent ++ take n (other s);
  pending = 0;
}

loop_sent-IsStream : (n : ℕ) (s : Scope) → IsStream s → IsStream (loop_sent n s)
loop_sent-IsStream n s i =
    let s' = loop_sent n s in
    let c : current s' ≡ current s = ground arith in
    let o : other s' ≡ [] = ground arith in
    let t : s'.handed ≡ s.handed ++ other s = ground arith in
    let v : s'.sent ≡ s.sent ++ take n (other s) = ground arith in
    let k : s'.taken ≡ s.taken = ground arith in
    record {
      spelled = rw (c, o, t, k, append_assoc) i.spelled;
      current_fits = rw c i.current_fits;
      other_fits = rw o (omega arith);
      sent_le = rw (t, v) (written-le n s.sent s.handed (other s) i.sent_le);
      sent_whole = rw (t, v) (written-whole n s.sent s.handed (other s) i.sent_le i.sent_whole);
    }

fits-buffers : (s : Scope) → IsStream s → (length s.first ≤ buf_size) × (length s.second ≤ buf_size)
fits-buffers s i = ground arith

net_loop-IsStream : (n : ℕ) (s : Scope) → IsStream s → IsStream (net_loop n s).0
unfolding net_loop
net_loop-IsStream n s i =
    if_cases (λ (r : Scope × Bool). IsStream r.0)
      (ltb buf_size (length s.first) || ltb buf_size (length s.second))
      (λ long. absurd (ground (arith, fits-buffers s i)))
      (λ _.
        if_cases (λ (r : Scope × Bool). IsStream r.0) (s.pending == 0) (λ _. i)
          (λ _. loop_sent-IsStream n s i))

step-IsStream : (e : Event) (s : Scope) → IsStream s → IsStream (step e s)
unfolding step
step-IsStream (sampled x) s i = add_sample12-IsStream x s i
step-IsStream (looped accepted) s i = net_loop-IsStream accepted s i
step-IsStream (linked on) s i = record {
  spelled = i.spelled;
  current_fits = i.current_fits;
  other_fits = i.other_fits;
  sent_le = i.sent_le;
  sent_whole = i.sent_whole;
}

-- Whatever the two tasks do and in whatever order, of whole calls, and however much the client takes of
-- each write: what the client was given to write, followed by the two buffers, the full one first, is the
-- encoding of the samples that were taken, in their order; no buffer is longer than its array; and the
-- client took no more bytes than it was given, and exactly those if it took as many.
pub steps-IsStream : (es : List Event) (s : Scope) → IsStream s → IsStream (steps es s)
unfolding steps
steps-IsStream [] s i = i
steps-IsStream (e ∷ es) s i = steps-IsStream es (step e s) (step-IsStream e s i)
