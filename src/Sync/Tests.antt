-- ===== src/Sync/Tests.antt =====
-- The reception of beacons of src/sync/bsync.cpp at concrete frames.
use fugu_mppt_firmware.Prelude.{
  ℕ, zero, suc, ◌+◌, ◌≡◌, refl, true, false, List, [], ◌∷◌, All, arith,
}
use fugu_mppt_firmware.Prelude.Int.{ℤ, pos}
use fugu_mppt_firmware.Float.Fixed.{Fixed, fixed_float, millionths}
use fugu_mppt_firmware.Sync.{Bridge, Est, Estimator, estimate}
use fugu_mppt_firmware.Sync.Extension.{Frame, receive_frames, receive_frames-extended}
use fugu_mppt_firmware.Sync.Revalidation.{estimates, IsApart, IsRebased, revalidation_ends}

abbrev fresh : Bridge
fresh = record {
  rx_ext = 0;
  rx_last = 0;
  esp_last = 0;
  rx_init = false;
  d_est = pos 0;
  d_init = false;
}

-- The second frame is behind a wrap of the stamp.
abbrev first_frame : Frame
first_frame = record { arrived = 4_294_900_000; seen = 1_000 }

abbrev second_frame : Frame
second_frame = record { arrived = 4_295_100_000; seen = 201_000 }

receive_frames-extended_example :
    (receive_frames (first_frame ∷ second_frame ∷ []) fresh).rx_ext + 0 ≡ 4_295_100_000
receive_frames-extended_example =
    receive_frames-extended first_frame (second_frame ∷ []) fresh refl (omega arith)

abbrev est : Est Fixed
est = record { o = millionths 1_000_000; r = millionths 0; t = pos 1_000; n_beacons = 400 }

abbrev revalidating : Estimator Fixed
revalidating = record {
  est = est;
  est_init = true;
  rej_streak = 8;
  reval_buf = [];
  revaling = true;
  alpha_a = millionths 300_000;
  alpha_b = millionths 50_000;
}

-- Frames of one time, 100 ms after the estimate's.
abbrev beacons : (count : ℕ) → List (Fixed × ℤ)
beacons zero = []
beacons (suc n) = (millionths 900_000_000, pos 101_000) ∷ beacons n

beacons-IsApart : (n : ℕ) → All (IsApart est) (beacons n)
beacons-IsApart zero = _
beacons-IsApart (suc n) = ((refl, refl), beacons-IsApart n)

revalidation_ends_example :
    let during = estimates (beacons 14) revalidating in
    (during.est ≡ est)
    × (during.revaling ≡ true)
    × IsRebased est (pos 201_000) (estimate (millionths 900_000_000) (pos 201_000) during)
revalidation_ends_example =
    revalidation_ends (beacons 14) (millionths 900_000_000, pos 201_000) revalidating refl refl refl
      refl (beacons-IsApart 14) (refl, refl)
