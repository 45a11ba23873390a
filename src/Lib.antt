-- ===== src/Lib.antt =====
-- The control firmware of a solar charger (MPPT) with a synchronous converter.
--
-- The program samples voltages and currents (src/adc/sampling.h), protects the converter and chooses
-- its duty cycle (src/mppt.h, src/mppt.cpp), drives the converter's two switches (src/buck.h) and
-- charges a battery (src/charger.h). One task runs the real-time loop (src/main.cpp), others bring the
-- battery's data and the user's commands.
--
-- Which file models which part:
--   Float               the type `float`, a parameter with the operations of C and <cmath>; Float/Fixed
--                       is an instance with twelve decimal places, at which the examples run
--   Signal              src/math/statmath.h (Ewma, TwoPass, Mean, Median, Integrator), src/pd_control.h
--                       (Pd), src/etc/coulomb_counter.h (Integrator), src/etc/linear_glide.h (Glide) and
--                       MinSampler of src/mppt.h (Sampled)
--   Sampler             src/adc/sampling.h: Sensor (Sensing), the calibration (Calibrating),
--                       buildCycleOrder (Cycle) and the polls of update (Polling); what is proved of
--                       the polls is in Rounds and Results
--   Converter           class SynchronousConverter of src/buck.h: Driver (drvCommit, drvCommitLsOff,
--                       drvShutdown, drvShortLs), Rect (diode emulation), Perturb (pwmPerturb,
--                       pwmPerturbFractional, disable, setManualRect), Setup (the limits of init) and
--                       Timing (src/pwm/mcpwm_timing.h); what is proved is in Bounds, Safety, Calls,
--                       Diode and Registers
--   Charger             src/charger.h: Params, Termination and Hysteresis, Battery, Pinning and Regimes;
--                       Detect is src/battery.h
--   Mppt                class MpptController: Backoff, Protect (protect), Slow (protectLf), Sweeping,
--                       Control (update), Manual (updateManual, updateCV); Tracking is src/tracker.h and
--                       Backflow src/pwm/backflow.h; what is proved is in Guarded, Safety and Steering
--   Metering            SolarEnergyMeter of src/metering.h; Flash is FlashValueStore of src/store.h,
--                       Ring the ring of days over any type of day, Window what the ring shows, and
--                       Daily the days, which have half-precision numbers in the ring
--   RealTime            loopRTNewData and stopAndBackoff of src/main.cpp, and the invariant of the loop
--                       (Invariant); Pass is a pass of loopRT with the watchdog of the ADC (Stall), and
--                       SlowLoop is loopLF with lfWatchdog, lfStuckWatchdog and lfControl; what is proved
--                       of them is in Hazards, Stopping and Starving
--   ConfFile            class ConfFile of src/conf.h: Text (trim, and the library's text functions),
--                       Numbers (getX, strtol_2_8_10_16 and the getters); Lines, Settings, Rewrite,
--                       Update, Removal and Decimal have what is proved
--   Service             Service and ServiceManager of src/service.h, which keep their settings in a
--                       ConfFile; Lifecycle, Managed and Persistence have what is proved
--   Scope               Scope and ScopeDecoder of src/tele/scope.h; Stream and Decoding have what is
--                       proved
--   Sync                rxCb and ditherCb of src/sync/bsync.cpp; Extension and Revalidation have what is
--                       proved of rxCb
--   Wire                putVarint, getVarint, SymbolTable and the table frames of lpDecode of
--                       src/tele/sym_line_protocol.h; Varints, Tables and Resending have what is proved
--   Prelude             shared names, tests, texts (Texts) and integers (Int)
--
-- A class is a record, a method is a function from the record to the record. The clock is an argument
-- `now`, in microseconds; wallClockMs() is `now / 1000`. An exception or a failed assertion is `none`.
-- The writes to the gate drivers and to the backflow pin are kept in the state as lists, the latest
-- first, and Converter/Registers replays them. Integers of w bits are natural numbers with the wrap
-- written out; signed ones are the integers of Prelude/Int. The laws of floating-point arithmetic that
-- a theorem needs are its hypotheses. What other tasks change between two iterations of the loop is
-- an `Input` of RealTime, with the converter's methods that the console has called. A file is the list
-- of its bytes, and a failing write ends it where it stops.
-- The two tasks of the scope are interleaved by whole calls, and the client takes any number of the bytes
-- that it is given. The conversions of half-precision numbers are parameters. A division by zero of
-- integers is `none`.
-- Loops on fuel are the search for a prescaler in Converter/Timing, which is given one step more than the source clock has hertz; decimal
-- numerals, of at most ten digits, enough for a `long` of 32 bits; varints, of at most ten bytes, enough
-- for 64 bits; and the entries of a table frame, of which there are less than bytes.
--
-- Not modelled: logging, telemetry but for the binary protocol's tables, the display, the console, the
-- pins and drivers themselves; the daily meter and the fan; what the concrete services do in their
-- hooks; the network side of the scope; the servo and the radio of the beacon synchronisation; the
-- vendored libraries.
pub mod Prelude
pub mod Float
pub mod Converter
pub mod Signal
pub mod Charger
pub mod Sampler
pub mod Mppt
pub mod RealTime
pub mod Metering
pub mod ConfFile
pub mod Scope
pub mod Service
pub mod Sync
pub mod Wire
