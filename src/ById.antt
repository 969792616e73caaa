-- ===== src/ById.antt =====
-- fetcher_by_id/: items that are fetched one by one or in batches, kept in the cache by id.
--
-- `client` stands for the API client, which passes on a state `W`; the callback of a chunk is a list
-- of what it was called with.
pub mod Serving
pub mod Updater
mod Examples
use market_proxy.Prelude.{ℕ, Bool, String, ◌++◌, List, [], ◌∷◌, if◌then◌else◌}
use market_proxy.Prelude.Int.{ℤ, pos, ltb_ℤ, leb_ℤ, ◌*ℤ◌}
use market_proxy.Prelude.Maps.{Map}
use market_proxy.Prelude.Errors.{Result, ok, err}
use market_proxy.Common.Chunks.{FetchFunc, chunk_map_fetcher, max_chunk_string_length}

abbrev pub chunks_default_chunk_size : ℤ
chunks_default_chunk_size = pos 250

-- In milliseconds.
abbrev pub chunks_default_request_delay : ℤ
chunks_default_request_delay = pos 1000

pub record ChunksFetcher : Type 0 where
  pub chunk_size : ℤ
  pub request_delay : ℤ
  pub is_batch_mode : Bool

unfoldable pub new_chunks_fetcher : ℤ → ℤ → Bool → ChunksFetcher
new_chunks_fetcher chunk_size request_delay_ms is_batch_mode = record {
  chunk_size = if leb_ℤ chunk_size (pos 0) then chunks_default_chunk_size else chunk_size;
  request_delay =
      (if ltb_ℤ request_delay_ms (pos 0) then chunks_default_request_delay else request_delay_ms)
      *ℤ pos 1_000_000;
  is_batch_mode = is_batch_mode;
}

-- What a fetch passes on: the state of the client, and the calls of the callback so far.
pub record Fetching (W : Type 0) : Type 0 where
  pub world : W
  pub chunks : List (Map String String)

module _ {W : Type 0} (fetch_single : String → W → Result String × W)
    (fetch_batch : List String → W → Result (Map String String) × W) where
  abbrev pub note_chunk :
      Result (Map String String) × W
      → List (Map String String)
      → Result (Map String String) × Fetching W
  note_chunk (ok chunk_data, w) calls =
      (ok chunk_data, record { world = w; chunks = calls ++ chunk_data ∷ [] })
  note_chunk (err e, w) calls = (err e, record { world = w; chunks = calls })

  abbrev pub one_item : String → Result String × W → Result (Map String String) × W
  one_item id (ok result, w) = (ok ((id, result) ∷ []), w)
  one_item id (err e, w) = (err e, w)

  -- The fetch function of `fetchSingle`.
  unfoldable pub fetch_first : FetchFunc (Fetching W) (Map String String)
  fetch_first s [] = (ok [], s)
  fetch_first s (id ∷ ids) = note_chunk (one_item id (fetch_single id s.world)) s.chunks

  -- The fetch function of `fetchBatch`.
  unfoldable pub fetch_chunk : FetchFunc (Fetching W) (Map String String)
  fetch_chunk s chunk = note_chunk (fetch_batch chunk s.world) s.chunks

  abbrev pub fetch_some :
      (ℕ → Bool)
      → ChunksFetcher
      → List String
      → Fetching W
      → Result (Map String String) × Fetching W
  fetch_some done f [] s = (ok [], s)
  fetch_some done f (id ∷ ids) s =
      if f.is_batch_mode
      then chunk_map_fetcher done f.chunk_size max_chunk_string_length f.request_delay fetch_chunk
          (id ∷ ids) s
      else chunk_map_fetcher done (pos 1) max_chunk_string_length f.request_delay fetch_first
          (id ∷ ids) s

  -- `FetchData`
  unfoldable pub fetch_data :
      (ℕ → Bool) → ChunksFetcher → List String → W → Result (Map String String) × Fetching W
  unfolding fetch_first fetch_chunk
  fetch_data done f ids w = fetch_some done f ids (record { world = w; chunks = [] })
