-- ===== src/Sync.antt =====
-- The reception of beacons by `BeaconSyncService` of src/sync/bsync.cpp: `rxCb`, which brings the time
-- stamps of the frames to 64 bits and to the clock of the esp timer and estimates the offset to the
-- access point's clock, and `ditherCb`. Both are over any type of floating-point numbers.
pub mod Extension
pub mod Revalidation
pub mod Tests
use fugu_mppt_firmware.Prelude.{
  ℕ, zero, suc, ◌+◌, ◌-◌, ◌%◌, Bool, true, false, ◌&&◌, ◌||◌, not, ltb, leb, ◌==◌, u8, u16, u32,
  if◌then◌else◌, List, [], ◌∷◌, ◌++◌, length, get_or,
}
use fugu_mppt_firmware.Prelude.Int.{ℤ, pos, sub_ℕ, ltb_ℤ, ◌+ℤ◌, ◌-ℤ◌, constrain}
use fugu_mppt_firmware.Float.{Float, f0}

-- `rxExt_`, `rxLast_`, `espLast_`, `rxInit_`, `dEst_` and `dInit_`
pub record Bridge : Type 0 where
  pub rx_ext : ℕ
  pub rx_last : ℕ  -- uint32_t
  pub esp_last : ℕ
  pub rx_init : Bool
  pub d_est : ℤ
  pub d_init : Bool

-- A gap in which whole turns of the 32-bit stamp may be lost, and the first frame, restart the bridge.
abbrev pub starts_anew : (esp : ℕ) → Bridge → Bool
starts_anew esp b = not b.rx_init || ltb 2_500_000_000 (esp - b.esp_last)

-- The 64-bit extension of the stamp `rx` that the callback sees at the esp timer's time `esp`.
unfoldable pub extend : (rx esp : ℕ) → Bridge → Bridge
extend rx esp b =
    if starts_anew esp b
    then record b { rx_ext = rx; rx_last = rx; esp_last = esp; rx_init = true; d_init = false }
    else record b {
      rx_ext = b.rx_ext + u32 (rx + 4294967296 - b.rx_last);
      rx_last = rx;
      esp_last = esp;
    }

abbrev pub d_meas : Bridge → ℤ
d_meas b = sub_ℕ b.rx_ext b.esp_last

-- The offset of the two clocks: the largest one while the estimate is acquired, and a new one after a
-- jump of more than a second.
unfoldable pub bridge_offset : (acquiring : Bool) → Bridge → Bridge
bridge_offset acquiring b =
    let d = d_meas b in
    if not b.d_init || ltb_ℤ b.d_est d && acquiring
    then record b { d_est = d; d_init = true }
    else if ltb_ℤ (pos 1_000_000) (b.d_est -ℤ d) || ltb_ℤ (pos 1_000_000) (d -ℤ b.d_est)
    then record b { d_est = d }
    else b

-- `Est`
pub record Est (F : Type 0) : Type 0 where
  pub o : F
  pub r : F
  pub t : ℤ
  pub n_beacons : ℕ  -- uint32_t

-- The state of the estimator; `reval_buf` holds the `revalCnt_` offsets that were collected.
pub record Estimator (F : Type 0) : Type 0 where
  pub est : Est F
  pub est_init : Bool
  pub rej_streak : ℕ  -- uint8_t
  pub reval_buf : List F
  pub revaling : Bool
  pub alpha_a : F
  pub alpha_b : F

-- `REVAL_N`
abbrev pub reval_n : ℕ
reval_n = 15

module _ {F : Type 0} ⦃fl : Float F⦄ where
  open fl use {add, sub, mul, div, neg, fabs, lt, dec, of_int}

  -- `std::sort`
  abbrev pub insert : F → List F → List F
  insert x [] = x ∷ []
  insert x (y ∷ ys) = let rest = insert x ys in if lt x y then x ∷ y ∷ ys else y ∷ rest

  abbrev pub sort : List F → List F
  sort [] = []
  sort (x ∷ xs) = insert x (sort xs)

  abbrev pub clamp : F → F → F → F
  clamp x low high = if lt x low then low else if lt high x then high else x

  -- A first estimate, or a new one.
  abbrev pub seed : F → ℤ → Estimator F → Estimator F
  seed meas w s = record s {
    est = record { o = meas; r = f0; t = w; n_beacons = 1 };
    est_init = true;
    rej_streak = 0;
  }

  abbrev pub predicted : F → Estimator F → F
  predicted dt s = add s.est.o (mul s.est.r dt)

  -- The end of a revalidation: the median counts where it is more than 500 us off.
  abbrev pub rebase : F → ℤ → List F → Estimator F → Estimator F
  rebase pred w buf s =
      let med = get_or (sort buf) 7 f0 in
      let o : F = if lt (dec 500 0) (fabs (sub med pred)) then med else pred in
      record s {
        est = record (s.est) { o = o; t = w };
        revaling = false;
        rej_streak = 0;
        reval_buf = buf;
      }

  abbrev pub collect : F → F → ℤ → Estimator F → Estimator F
  collect meas pred w s =
      let buf = s.reval_buf ++ meas ∷ [] in
      if leb reval_n (length buf) then rebase pred w buf s else record s { reval_buf = buf }

  abbrev pub reject : Estimator F → Estimator F
  reject s =
      let n = u8 (s.rej_streak + 1) in
      if leb 8 n
      then record s { rej_streak = n; revaling = true; reval_buf = [] }
      else record s { rej_streak = n }

  -- The alpha-beta step.
  abbrev pub accept : F → F → F → ℤ → Estimator F → Estimator F
  accept resid pred dt w s =
      let limit = dec 200 6 in
      record s {
        rej_streak = 0;
        est = record {
          o = add pred (mul s.alpha_a resid);
          r = clamp (add s.est.r (div (mul s.alpha_b resid) dt)) (neg limit) limit;
          t = w;
          n_beacons = u32 (s.est.n_beacons + 1);
        };
      }

  abbrev pub judge : F → F → F → ℤ → Estimator F → Estimator F
  judge meas pred dt w s =
      let resid = sub meas pred in
      if lt (dec 500 0) (fabs resid) then reject s else accept resid pred dt w s

  -- What a frame at `w` with the measured offset does to the estimate.
  unfoldable pub estimate : F → ℤ → Estimator F → Estimator F
  estimate meas w s =
      let dt = of_int (w -ℤ s.est.t) in
      let pred = predicted dt s in
      if not s.est_init
      then seed meas w s
      else if lt dt f0
      then record (seed meas w s) { revaling = false }
      else if not (lt (dec 1000 0) dt)
      then s
      else if s.revaling
      then collect meas pred w s
      else judge meas pred dt w s

  abbrev pub acquiring : Estimator F → Bool
  acquiring s = not s.est_init || ltb s.est.n_beacons 300

  -- The bridge's restart also forgets the estimate.
  abbrev pub forgotten : (anew : Bool) → Estimator F → Estimator F
  forgotten anew s = if anew then record s { est_init = false; revaling = false } else s

  -- `rxCb` behind its filters, for a frame with the stamp `rx` and the access point's time `tsf`.
  unfoldable pub rx_frame : (rx esp tsf : ℕ) → Bridge → Estimator F → Bridge × Estimator F
  rx_frame rx esp tsf b s =
      let s1 = forgotten (starts_anew esp b) s in
      let b1 = bridge_offset (acquiring s1) (extend rx esp b) in
      let w = pos b1.rx_ext -ℤ b1.d_est in (b1, estimate (of_int (w -ℤ pos tsf)) w s1)

-- The actuator: `sdCarry_`, `sdOut_`, and the periods that were written, the latest first.
pub record Dither (F : Type 0) : Type 0 where
  pub nom_period : ℕ  -- uint16_t
  pub u_cmd : F
  pub carry : F
  pub out : ℤ
  pub periods : List ℕ

abbrev pub same_int : ℤ → ℤ → Bool
same_int x y = not (ltb_ℤ x y) && not (ltb_ℤ y x)

module _ {F : Type 0} ⦃fl : Float F⦄ where
  open fl use {add, sub, of_int, to_int}

  -- `ditherCb`
  unfoldable pub dither : Dither F → Dither F
  dither s =
      let sum = add s.carry s.u_cmd in
      let whole = to_int sum in
      let s' : Dither F = record s { carry = sub sum (of_int whole) } in
      let one : Bool = ltb_ℤ (pos 0) whole in
      let out : ℤ = if one then pos 1 else pos 0 in
      if same_int out s.out then s' else record s' {
        out = out;
        periods = u16 (s.nom_period + (if one then 1 else 0)) ∷ s.periods;
      }
