-- ===== src/Concept.antt =====
-- Package concept: the aggregation service and its HTTP handlers.
pub mod Identifiers
pub mod Buckets
pub mod Service
pub mod Gather
pub mod Paths
pub mod Writer
pub mod Purger
pub mod Process
pub mod Health
pub mod Listener
pub mod Handlers
pub mod Checks
pub mod HealthService
pub mod Routes
pub mod Changes
