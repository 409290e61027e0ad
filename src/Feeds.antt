-- ===== src/Feeds.antt =====
-- The feeds package (src/orvixa/feeds).
pub mod Base
pub mod Symbol
pub mod Normalize
pub mod Binance
pub mod Sim
