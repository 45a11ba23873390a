-- ===== src/Sync/Extension.antt =====
-- The 64-bit extension of the hardware's 32-bit time stamps in `rxCb` of src/sync/bsync.cpp.
use fugu_mppt_firmware.Prelude.{
  ℕ, ◌+◌, ◌-◌, ◌≤◌, ◌<◌, ◌≡◌, refl, true, false, u32, List, [], ◌∷◌, arith,
}
use fugu_mppt_firmware.Sync.{Bridge, extend, starts_anew}

-- A frame: the hardware's true time of its arrival and the esp timer's time of the callback.
pub record Frame : Type 0 where
  pub arrived : ℕ
  pub seen : ℕ

abbrev pub receive_frame : Frame → Bridge → Bridge
receive_frame f b = extend (u32 f.arrived) f.seen b

abbrev pub receive_frames : List Frame → Bridge → Bridge
receive_frames [] b = b
receive_frames (f ∷ fs) b = receive_frames fs (receive_frame f b)

-- No gap between frames loses a turn: less than 2^32 us in the hardware's time, and no restart by the
-- esp timer's.
abbrev pub IsSteady : Frame → List Frame → Type 0
IsSteady f [] = Unit
IsSteady f (g ∷ gs) =
    (f.arrived ≤ g.arrived)
    × (g.arrived < f.arrived + 4294967296)
    × (g.seen ≤ f.seen + 2_500_000_000)
    × IsSteady g gs

abbrev pub last_frame : Frame → List Frame → Frame
last_frame f [] = f
last_frame f (g ∷ gs) = last_frame g gs

-- The extension is `base` behind the true time of the latest frame.
pub record IsExtended (base : ℕ) (f : Frame) (b : Bridge) : Type 0 where
  pub begun : b.rx_init ≡ true
  pub extended : b.rx_ext + base ≡ f.arrived
  pub stamp : b.rx_last ≡ u32 f.arrived
  pub seen_last : b.esp_last ≡ f.seen

goes_on :
    (g : Frame) (b : Bridge)
    → b.rx_init ≡ true
    → g.seen ≤ b.esp_last + 2_500_000_000
    → starts_anew g.seen b ≡ false
goes_on g b begun near = ground arith

extend-IsExtended :
    (base : ℕ) (f g : Frame) (b : Bridge)
    → IsExtended base f b
    → f.arrived ≤ g.arrived
    → g.arrived < f.arrived + 4294967296
    → g.seen ≤ f.seen + 2_500_000_000
    → IsExtended base g (receive_frame g b)
unfolding extend
extend-IsExtended base f g b i later near seen =
    let same = goes_on g b i.begun (omega (arith, i.seen_last, seen)) in
    rw same (record {
      begun = i.begun;
      extended = omega (arith, i.extended, i.stamp, later, near);
      stamp = refl;
      seen_last = refl;
    })

receive_frames-IsExtended :
    (base : ℕ) (f : Frame) (fs : List Frame) (b : Bridge)
    → IsExtended base f b
    → IsSteady f fs
    → IsExtended base (last_frame f fs) (receive_frames fs b)
receive_frames-IsExtended base f [] b i steady = i
receive_frames-IsExtended base f (g ∷ gs) b i steady =
    receive_frames-IsExtended base g gs (receive_frame g b)
      (extend-IsExtended base f g b i steady.0 steady.1 steady.2) steady.3

-- From the frame on that starts the bridge, while no gap loses a turn of the 32-bit stamp: the extended
-- stamp runs with the hardware's true time, through any number of wraps, and is behind it by what the
-- first stamp had lost, a multiple of 2^32.
pub receive_frames-extended :
    (first : Frame) (fs : List Frame) (b : Bridge)
    → starts_anew first.seen b ≡ true
    → IsSteady first fs
    → (receive_frames (first ∷ fs) b).rx_ext + (first.arrived - u32 first.arrived)
      ≡ (last_frame first fs).arrived
unfolding extend
receive_frames-extended first fs b anew steady =
    let base = first.arrived - u32 first.arrived in
    let start : IsExtended base first (receive_frame first b) =
      rw anew (record { begun = refl; extended = omega arith; stamp = refl; seen_last = refl }) in
    (receive_frames-IsExtended base first fs (receive_frame first b) start steady).extended
