-- ===== src/Main.antt =====
-- cmd/kured/main.go.
pub mod Flags
pub mod Env
pub mod Pflags
pub mod Settings
pub mod Start
pub mod Labels
pub mod Notification
pub mod Nodes
pub mod Loop
pub mod Startup
pub mod Outage
pub mod Status
pub mod Safety
pub mod Progress
pub mod Fleet
pub mod Rounds
pub mod Again
mod Examples
mod TaintExamples
mod EnvExamples
mod FleetExamples
mod StartExamples
mod ProgressExamples
mod RoundsExamples
