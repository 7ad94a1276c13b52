-- ===== src/Tests.antt =====
-- Concrete runs of the model, and the theorems applied at concrete inputs.
mod JobStates
mod Fixture
mod StoreCalls
mod EngineSteps
mod Leases
mod Approvals
mod Risks
mod Routes
mod RouteUpdates
mod Observations
mod Schedules
mod Streams
mod Workers
