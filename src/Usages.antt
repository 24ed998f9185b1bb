-- ===== src/Usages.antt =====
-- Parts of internal/usages: how web requests are retried, and when and how tokens are refreshed.
pub mod World
pub mod Commits
pub mod Refresher
pub mod Retry
pub mod Schedule
pub mod Rotation
pub mod StateStore
