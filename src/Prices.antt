-- ===== src/Prices.antt =====
-- Package coingecko_prices: the prices of the top tokens, fetched by tiers and served from the cache.
pub mod Data
pub mod Chunks
pub mod Strip
pub mod Updater
pub mod Serving
mod Examples
