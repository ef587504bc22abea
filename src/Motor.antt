-- ===== src/Motor.antt =====
-- Motors: the protocol code of src/device/motor.
pub mod Floats
pub mod Error
pub mod Feedback
pub mod FeedbackLayout
pub mod Command
pub mod CommandLayout
pub mod CommandSafety
pub mod Status
pub mod Waiters
mod Tests
