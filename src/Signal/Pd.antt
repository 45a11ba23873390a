-- ===== src/Signal/Pd.antt =====
-- `PD_Control` and `PD_Control_SmoothSetpoint` of src/pd_control.h.
use fugu_mppt_firmware.Prelude.{◌≡◌, Bool, true, false, arith, Option, none, some, if◌then◌else◌}
use fugu_mppt_firmware.Float.{Float, f0, f1}
use fugu_mppt_firmware.Signal.Ewma
use fugu_mppt_firmware.Signal.Ewma.{Ewma}

-- `smooth` is the average of the setpoint, which the subclass has.
pub record Pd (F : Type 0) : Type 0 where
  pub kp : F
  pub kd : F
  pub normalize : Bool
  pub prev_e : F
  pub smooth : Option (Ewma F)

module _ {F : Type 0} ⦃fl : Float F⦄ where
  open fl use {add, sub, mul, div, nan, is_nan}

  unfoldable pub reset : Pd F → Pd F
  reset c = record c { prev_e = nan }

  -- `PD_Control::update`
  unfoldable pub update_pd : (measurement setpoint : F) → Pd F → Pd F × F
  update_pd measurement setpoint c =
      let m : F = if c.normalize then div measurement setpoint else measurement in
      let s : F = if c.normalize then f1 else setpoint in
      let e = sub s m in
      let de = sub e c.prev_e in
      let de' : F = if is_nan de then f0 else de in
      (record c { prev_e = e }, add (mul c.kp e) (mul c.kd de'))

  -- The virtual `update`: the subclass first smooths the setpoint.
  abbrev pub dispatch : Option (Ewma F) → F → F → Pd F → Pd F × F
  dispatch none actual target c = update_pd actual target c
  dispatch (some w) actual target c =
      let w' = Ewma.step target w in update_pd actual w'.y (record c { smooth = some w' })

  unfoldable pub update : (actual target : F) → Pd F → Pd F × F
  update actual target c = dispatch c.smooth actual target c

  -- The error that `PD_Control::update` works with.
  abbrev pub error : F → F → Pd F → F
  error m s c = if c.normalize then sub f1 (div m s) else sub s m

  -- The first output after `reset` has no derivative part, whatever the errors before were, if a
  -- difference with NaN is NaN. The second one's derivative part is the change of the error.
  pub update_pd-reset :
      (m s m' s' : F) (c : Pd F)
      → ((e : F) → is_nan (sub e nan) ≡ true)
      → is_nan (sub (error m' s' c) (error m s c)) ≡ false
      → let (c1, out) = update_pd m s (reset c) in
        (out ≡ add (mul c.kp (error m s c)) (mul c.kd f0))
        × ((update_pd m' s' c1).1
            ≡ add (mul c.kp (error m' s' c)) (mul c.kd (sub (error m' s' c) (error m s c))))
  unfolding reset update_pd
  update_pd-reset m s m' s' c h k = ground (arith, h (error m s c))
