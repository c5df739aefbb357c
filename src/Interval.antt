-- ===== src/Interval.antt =====
-- components/esp_time_into_interval: events that are synchronized to the system clock.
pub mod Normalize
pub mod Event
pub mod Handle
pub mod Advance
pub mod Schedule
pub mod Lifecycle
pub mod Wake
pub mod Pace
pub mod Locks
mod Examples
