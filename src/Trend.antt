-- ===== src/Trend.antt =====
-- components/esp_scalar_trend: the trend of the samples of the last hour, by a test on the slope of
-- the line of best fit. A handle is `none` where the source has a null pointer.
pub mod Critical
pub mod Fit
pub mod Handle
pub mod History
pub mod Poison
mod Examples
