-- ===== src/Tests.antt =====
-- Concrete runs of the theorems, at inputs where their hypotheses hold.
pub mod Dashboard
pub mod Session
pub mod World
pub mod Routes
pub mod Verify
pub mod Offer
pub mod Public
pub mod App
pub mod Answers
