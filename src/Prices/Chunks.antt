-- ===== src/Prices/Chunks.antt =====
-- coingecko_prices/chunks_fetcher.go: prices fetched in chunks of ids.
--
-- The client's `FetchPrices` is a parameter that passes on a state `W`. The callback of a chunk is a
-- list of what it was called with.
use market_proxy.Prelude.{ℕ, Bool, String, ◌++◌, List, [], ◌∷◌, if◌then◌else◌}
use market_proxy.Prelude.Int.{ℤ, pos, ltb_ℤ, leb_ℤ, ◌*ℤ◌}
use market_proxy.Prelude.Maps.{Map}
use market_proxy.Prelude.Errors.{Result, ok, err}
use market_proxy.Common.Chunks.{FetchFunc, chunk_map_fetcher, max_chunk_string_length}
use market_proxy.Prices.Data.{PriceParams}

abbrev pub default_chunk_size : ℤ
default_chunk_size = pos 500

-- In milliseconds, of a million nanoseconds each.
abbrev pub default_request_delay : ℤ
default_request_delay = pos 2000

pub record ChunksFetcher : Type 0 where
  pub chunk_size : ℤ
  pub request_delay : ℤ

unfoldable pub new_chunks_fetcher : ℤ → ℤ → ChunksFetcher
new_chunks_fetcher chunk_size request_delay_ms = record {
  chunk_size = if leb_ℤ chunk_size (pos 0) then default_chunk_size else chunk_size;
  request_delay =
      (if ltb_ℤ request_delay_ms (pos 0) then default_request_delay else request_delay_ms)
      *ℤ pos 1_000_000;
}

-- What a fetch passes on: the state of the client, and the calls of the callback so far.
pub record Fetching (W : Type 0) : Type 0 where
  pub world : W
  pub chunks : List (Map String String)

module _ {W : Type 0} (fetch : W → PriceParams → Result (Map String String) × W) where
  -- The parameters of a chunk: those of the request, with the ids of the chunk.
  abbrev pub chunk_params : PriceParams → List String → PriceParams
  chunk_params params chunk = record params { ids = chunk }

  abbrev pub note_chunk :
      Result (Map String String) × W
      → List (Map String String)
      → Result (Map String String) × Fetching W
  note_chunk (ok chunk_data, w) calls =
      (ok chunk_data, record { world = w; chunks = calls ++ chunk_data ∷ [] })
  note_chunk (err e, w) calls = (err e, record { world = w; chunks = calls })

  unfoldable pub fetch_func : PriceParams → FetchFunc (Fetching W) (Map String String)
  fetch_func params s chunk = note_chunk (fetch s.world (chunk_params params chunk)) s.chunks

  abbrev pub fetch_some :
      (ℕ → Bool)
      → ChunksFetcher
      → PriceParams
      → List String
      → W
      → Result (Map String String) × Fetching W
  fetch_some done f params [] w = (ok [], record { world = w; chunks = [] })
  fetch_some done f params (id ∷ ids) w =
      chunk_map_fetcher done f.chunk_size max_chunk_string_length f.request_delay
        (fetch_func params) (id ∷ ids) (record { world = w; chunks = [] })

  -- `FetchPrices`
  unfoldable pub fetch_prices :
      (ℕ → Bool) → ChunksFetcher → PriceParams → W → Result (Map String String) × Fetching W
  unfolding fetch_func
  fetch_prices done f params w = fetch_some done f params params.ids w
