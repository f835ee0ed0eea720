-- ===== src/Alert.antt =====
-- The alert rules: apps/sso/worker/alert-rules.ts.
pub mod Types
pub mod Definitions
pub mod Observation
pub mod Expression
pub mod Bags
pub mod Evaluate
pub mod Kleene
pub mod Totality
pub mod Windows
pub mod Verdicts
pub mod Severity
pub mod Rules
pub mod Queue
pub mod Known
pub mod Decided
pub mod Sampled
pub mod Metrics
pub mod Parsing
pub mod Evidence
pub mod Contracts
pub mod Proven
pub mod Covers
pub mod Emitted
pub mod Ranges
pub mod Storable
pub mod Parsed
pub mod Canonical
pub mod Accepted
pub mod Consistent
pub mod Accepting
pub mod Admitted
pub mod Roundtrip
pub mod Kept
mod Examples
