-- ===== src/Charger.antt =====
-- `struct BatChargerParams` of src/charger.h, which the parts of the battery charger share. The
-- children hold the termination condition, the battery's state and the charger itself.
pub mod Params
pub mod Termination
pub mod Hysteresis
pub mod Detect
pub mod Battery
pub mod Pinning
pub mod Regimes
pub mod Tests
