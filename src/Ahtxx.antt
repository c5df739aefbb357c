-- ===== src/Ahtxx.antt =====
-- components/ahtxx: the driver of the temperature and humidity sensor. A function of the source
-- that takes the device handle is an action on it.
pub mod Device
pub mod Measure
pub mod Init
pub mod Memory
pub mod Kind
mod Examples
