-- ===== src/Markets/Chunks.antt =====
-- coingecko_markets/chunks_fetcher.go: tokens fetched in chunks of ids.
--
-- `fetch_page` is the API client, which passes on a state `W`. The callback of a chunk is a list of
-- what it was called with.
use market_proxy.Prelude.{ℕ, Bool, String, ◌++◌, List, [], ◌∷◌, if◌then◌else◌}
use market_proxy.Prelude.Int.{ℤ, pos, ltb_ℤ, leb_ℤ, ◌*ℤ◌}
use market_proxy.Prelude.Errors.{Result, ok, err}
use market_proxy.Common.Chunks.{FetchFunc, chunk_array_fetcher, max_chunk_string_length}
use market_proxy.Markets.Params.{MarketsParams}

abbrev pub chunks_default_chunk_size : ℤ
chunks_default_chunk_size = pos 250

-- In milliseconds.
abbrev pub chunks_default_request_delay : ℤ
chunks_default_request_delay = pos 1000

pub record ChunksFetcher : Type 0 where
  pub chunk_size : ℤ
  pub request_delay : ℤ

unfoldable pub new_chunks_fetcher : ℤ → ℤ → ChunksFetcher
new_chunks_fetcher chunk_size request_delay_ms = record {
  chunk_size = if leb_ℤ chunk_size (pos 0) then chunks_default_chunk_size else chunk_size;
  request_delay =
      (if ltb_ℤ request_delay_ms (pos 0) then chunks_default_request_delay else request_delay_ms)
      *ℤ pos 1_000_000;
}

-- What a fetch passes on: the state of the client, and the calls of the callback so far.
pub record Fetching (W : Type 0) : Type 0 where
  pub world : W
  pub chunks : List (List String)

module _ {W : Type 0} (fetch_page : MarketsParams → W → Result (List String) × W) where
  abbrev pub chunk_params : ChunksFetcher → MarketsParams → List String → MarketsParams
  chunk_params f params chunk = record params { ids = chunk; per_page = f.chunk_size; page = pos 1 }

  abbrev pub note_chunk :
      Result (List String) × W → List (List String) → Result (List String) × Fetching W
  note_chunk (ok chunk_data, w) calls =
      (ok chunk_data, record { world = w; chunks = calls ++ chunk_data ∷ [] })
  note_chunk (err e, w) calls = (err e, record { world = w; chunks = calls })

  unfoldable pub fetch_func : ChunksFetcher → MarketsParams → FetchFunc (Fetching W) (List String)
  fetch_func f params s chunk =
      note_chunk (fetch_page (chunk_params f params chunk) s.world) s.chunks

  abbrev pub fetch_some :
      (ℕ → Bool)
      → ChunksFetcher
      → MarketsParams
      → List String
      → W
      → Result (List String) × Fetching W
  fetch_some done f params [] w = (ok [], record { world = w; chunks = [] })
  fetch_some done f params (id ∷ ids) w =
      chunk_array_fetcher done f.chunk_size max_chunk_string_length f.request_delay
        (fetch_func f params) (id ∷ ids) (record { world = w; chunks = [] })

  -- `FetchMarkets`
  unfoldable pub fetch_markets :
      (ℕ → Bool) → ChunksFetcher → MarketsParams → W → Result (List String) × Fetching W
  unfolding fetch_func
  fetch_markets done f params w = fetch_some done f params params.ids w
