-- ===== src/Tests.antt =====
-- The development at concrete inputs: the data, and each theorem applied to it.
pub mod Data
pub mod Cycle
pub mod Parts
pub mod Async
pub mod Usb
pub mod Configuration
