-- ===== src/Tests.antt =====
-- Runs of the program on concrete tables.
pub mod Scene
mod HttpScene
mod RouterRuns
mod LimiterRuns
mod ConfigRuns
mod KeyRuns
mod StoreRuns
mod SessionRuns
mod IdentityRuns
mod AuthzRuns
mod ClientRuns
mod HttpRuns
mod TenantRuns
mod Oauth2Runs
mod FlowRuns
