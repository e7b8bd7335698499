-- ===== src/Osint.antt =====
-- packages/osint/src: the OSINT package.
pub mod Policy
pub mod Refinement
pub mod Critique
pub mod Auth
pub mod WhoAudit
pub mod WhoJobs
pub mod Cases
pub mod Dossiers
pub mod EntityIndex
pub mod WhoWorker
pub mod Engine
