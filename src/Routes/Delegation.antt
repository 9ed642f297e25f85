-- ===== src/Routes/Delegation.antt =====
-- On whose behalf the handlers call the composed services.
pub mod Base
pub mod Calls
pub mod Handlers
pub mod Answers
pub mod View
pub mod All
pub mod Gate
pub mod Replies
