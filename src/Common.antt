-- ===== src/Common.antt =====
-- Package coingecko_common: the code that the fetching services share.
pub mod Chunks
pub mod Http
pub mod Keys
pub mod Limits
mod Examples
