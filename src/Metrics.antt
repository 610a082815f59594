-- ===== src/Metrics.antt =====
-- pkg/profiling/task/network/analyze/layer7/protocols/metrics: the counter, the histogram and the
-- list of the slowest records that the protocol analyzers keep.
pub mod TopN
pub mod Histogram
