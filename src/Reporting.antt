-- ===== src/Reporting.antt =====
-- src/reporting/pipeline_reporter.cpp.
pub mod Json
pub mod Publish
mod Tests
