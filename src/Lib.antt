-- ===== src/Lib.antt =====
-- A model of the market proxy: a service that fetches market data from CoinGecko, keeps it in a
-- cache, and answers clients from there. All the code is under market-fetcher/.
--
-- - Prelude: shared names, signed integers (Go's `int` and `time.Duration`), Go maps as association
--   lists, sets, strings, and error values. Json: the values of `json.Unmarshal`.
-- - Core: core/service.go, the services in the order of their registration.
-- - Events: events/subscription.go, the subscriptions through which services tell each other that
--   data is new, with their channels, locks and goroutines as steps.
-- - Scheduler: scheduler/scheduler.go, the periodic tasks, which run the checks of the updaters.
-- - Common: coingecko_common/. Chunks is process_in_chunks.go, Keys is api_key_manager.go and
--   utils.go, Http is http_client_with_retries.go, Limits is rate_limiter_manager.go. A fetcher asks
--   Keys for the keys on offer, tries them by `TryWithKeys`, and makes each try a request of Http,
--   which waits for a limiter of Limits.
-- - Config: config/, the validation of tiers and the defaults.
-- - Cache: cache/, the cache of all services over a store that is a parameter (`Store`), with the
--   documented laws of that package in Cache/Laws.antt and a store that has them in
--   Cache/MapStore.antt.
-- - Markets: coingecko_markets/. Params is market_params_override.go, Paging is
--   paginated_fetcher.go, Updater is periodic_updater.go, Keys is utils.go, TopIds is top_ids.go (the
--   ranking of the ids that the pages bring), Coins is utils.go and types.go, Chunks is
--   chunks_fetcher.go, Filling is what service.go and cache_utils.go put into the cache, and Reading
--   is what service.go answers to clients. Updater/Update is one update of a tier: it fetches pages
--   by Paging and missing ids by Chunks, its callbacks (Filling) fill the cache and the ranking, and
--   the reading side only asks the cache.
-- - Prices: coingecko_prices/. Updater is periodic_updater.go, which fetches the ids of its tiers by
--   Chunks, chunks_fetcher.go; Serving is service.go, from the updater into the cache and from there
--   to clients; Strip is strip_utils.go.
-- - Chart: coingecko_market_chart/. Chart.antt is types.go and roundup_request_utils.go, Serving is
--   service.go, which asks for more days than a client does and keeps the answer in the cache, and
--   Strip is strip_response_utils.go, which cuts it down to what the client asked for.
-- - ById: fetcher_by_id/. ById.antt is chunks_fetcher.go, Updater is
--   periodic_updater.go, and Serving is service.go.
-- - Tokens: coingecko_tokens/, the tokens of the supported platforms, whose ids the updaters of
--   markets and prices take as extra ids.
--
-- A method that holds a lock is one step, a function from the state to a result and the next state.
-- What the updater starts in goroutines is a list of actions, each a step of its own later. Events
-- and Scheduler have a function from a move of any goroutine to the next state, and schedules are
-- lists of moves. The clock is a number of nanoseconds that a caller passes. The network, the limiter,
-- the random generator, JSON decoding, floats, sleeping and the end of a context are parameters. The
-- retry loop runs on the number of rounds left, the page loop on the number of pages left, and the
-- chunk loop on the number of items, which is enough because every round takes an item
-- (Common/Chunks/Plan.antt). Integers that count items, pages and attempts do not come near 2^63,
-- and are unbounded here; the retry backoff is computed as the code does, in a float64 and an int64,
-- and so is the cutoff of a chart, in an int64 and for a clock in UTC. A panic is a result of the
-- model (none).
--
-- Not modelled: logging, metrics, HTTP handlers, the wiring in core/composition_root.go and main.go,
-- YAML loading, the API clients, token lists and the leaderboard.
pub mod Prelude
pub mod Json
pub mod Common
pub mod Config
pub mod Core
pub mod Events
pub mod Scheduler
pub mod Cache
pub mod Markets
pub mod Chart
pub mod Tokens
pub mod ById
pub mod Prices
