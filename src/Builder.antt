-- ===== src/Builder.antt =====
-- internal/builder/builder.go: the pipeline that builds and publishes a routing snapshot.
pub mod Extraction
pub mod Loading
pub mod Pipeline
pub mod Targets
