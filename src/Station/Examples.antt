-- ===== src/Station/Examples.antt =====
-- The theorems on the station at concrete inputs.
mod Tasks
mod Sensing
mod Boot
mod SetUp
mod Still
mod Operation
