-- ===== src/Config.antt =====
-- Package config: the tiers of the fetchers and the defaults that stand in for missing values.
pub mod Chart
pub mod Tiers
pub mod Markets
pub mod Prices
pub mod FetcherById
mod Examples
