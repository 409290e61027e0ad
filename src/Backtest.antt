-- ===== src/Backtest.antt =====
-- The backtest package (src/orvixa/backtest): forward returns, validity labels and policy decisions.
pub mod Policy
pub mod Returns
pub mod SampleSize
pub mod Clusters
pub mod Bootstrap
pub mod Metrics
pub mod Replay
pub mod RegimeMetrics
pub mod Runs
mod Tests
