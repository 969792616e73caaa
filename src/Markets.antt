-- ===== src/Markets.antt =====
-- Package coingecko_markets.
pub mod Data
pub mod Coins
pub mod Chunks
pub mod Params
pub mod Paging
pub mod Updater
pub mod Keys
pub mod Reading
pub mod Filling
pub mod TopIds
mod Examples
mod UpdateExamples
mod ReadExamples
mod FillExamples
