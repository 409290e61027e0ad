-- ===== src/Analytics.antt =====
-- The analytics package (src/orvixa/analytics): trend, market regime and health, and the signals.
pub mod Trend
pub mod Indicators
pub mod Regime
pub mod Signals
pub mod Events
pub mod Engine
mod Tests
