-- ===== src/Signal.antt =====
-- The small stateful pieces that the firmware's signals go through: the averages, medians and
-- integrators of src/math/statmath.h, the PD controllers of src/pd_control.h, `LinearGlide` of
-- src/etc/linear_glide.h, `CoulombCounter` of src/etc/coulomb_counter.h and `MinSampler` of src/mppt.h.
pub mod Ewma
pub mod TwoPass
pub mod Mean
pub mod Median
pub mod Integrator
pub mod Glide
pub mod Pd
pub mod Sampled
