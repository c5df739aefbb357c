-- ===== src/Bmp280.antt =====
-- components/bmp280: the driver of the pressure sensor. A function of the source that takes the
-- device handle is an action on it; fields of registers and enumerators are their numbers.
pub mod Registers
pub mod Compensate
pub mod Device
pub mod Settings
pub mod Measure
pub mod Init
pub mod Mirror
pub mod RoundTrip
pub mod Poll
pub mod Leak
pub mod Exact
pub mod Modes
pub mod Configure
pub mod Board
mod Examples
