-- ===== src/Starter.antt =====
-- cmd/starter/main.go: the command line client.
pub mod Flags
pub mod Program
pub mod Layout
pub mod Names
pub mod Deploys
pub mod Releases
pub mod History
pub mod Main
