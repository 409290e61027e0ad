-- ===== src/Symbols.antt =====
-- The symbols package (src/orvixa/symbols).
pub mod Models
pub mod Ranking
pub mod Tiers
pub mod Listings
pub mod Sync
pub mod Breadth
pub mod Refresh
pub mod Watchlist
pub mod Storage
mod Tests
