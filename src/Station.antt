-- ===== src/Station.antt =====
-- src/main.c: the tasks of the weather station.
pub mod Sample
pub mod Queue
pub mod Tasks
pub mod Order
pub mod Delivery
pub mod Rounds
pub mod Progress
pub mod Lag
pub mod Measure
pub mod Histories
pub mod Message
pub mod Heap
pub mod System
pub mod Boots
pub mod Setup
pub mod Ready
pub mod Main
pub mod Started
pub mod Cycle
pub mod Cycles
pub mod Termination
pub mod Log
pub mod Identity
pub mod Passes
pub mod Published
pub mod Pace
pub mod Operation
mod Examples
