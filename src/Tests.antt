-- ===== src/Tests.antt =====
-- Concrete services for the interfaces, and the theorems at concrete inputs.
mod Cluster
mod Database
mod Activities
mod Audit
mod Starter
mod Workflows
mod Rollout
mod Busy
mod Served
mod Decides
mod OnRecord
mod Isolation
mod Courses
mod Releases
mod Process
mod Trail
mod Command
