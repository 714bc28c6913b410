-- ===== src/Activities.antt =====
-- internal/activities: one module for each file that holds activities.
pub mod Policy
pub mod Scale
pub mod Health
pub mod Traffic
pub mod Promote
pub mod Notify
pub mod Writes
