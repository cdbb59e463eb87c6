-- ===== src/Tests.antt =====
-- Concrete runs of the models, and the theorems at concrete inputs.
mod Data
mod RegistryRuns
mod CoordinationRuns
mod AutonomyRuns
mod SegmentRuns
mod DeconflictionRuns
mod NetworkRuns
mod MavlinkRuns
mod NodeRuns
mod CommandRuns
mod TopologyRuns
