-- ===== src/Persistence.antt =====
-- The persistence package (src/orvixa/persistence).
pub mod BatchWriter
pub mod SymbolIds
pub mod Candles
