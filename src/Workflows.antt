-- ===== src/Workflows.antt =====
-- internal/workflows: the engine's interface, and one module for each file.
pub mod Options
pub mod Engine
pub mod Saga
pub mod Canary
pub mod Orchestrator
pub mod Hello
