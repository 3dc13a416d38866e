-- ===== src/Metrics.antt =====
-- The metrics of src/metrics: counters, gauges, histograms, their registry and the timer.
pub mod Counter
pub mod Gauge
pub mod Histogram
pub mod Name
pub mod Registry
mod Tests
