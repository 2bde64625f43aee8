-- ===== src/Files/Chunking.antt =====
-- backend/app/services/files/chunking_service.py, `chunk_text`. Sizes and offsets are natural
-- numbers. The loop takes fuel; `chunk_text` gives it one more than the text's length.
pub mod Windows
pub mod Coverage
use gummy_os.Common.{
  ℕ, zero, suc, ◌+◌, ◌-◌, ◌/◌, min, max, Text, strip, length, take, drop, List, [], ◌∷◌, Option,
  none, some, Result, ok, err, ltb, leb, if◌then◌else◌, ◌==◌,
}

-- `FILE_CHUNK_SIZE_CHARS`, `FILE_CHUNK_OVERLAP_CHARS` and `FILE_CHUNK_TOKEN_DIVISOR`
abbrev file_chunk_size_chars : ℕ
file_chunk_size_chars = 1200

abbrev file_chunk_overlap_chars : ℕ
file_chunk_overlap_chars = 150

abbrev file_chunk_token_divisor : ℕ
file_chunk_token_divisor = 4

pub record TextChunk : Type 0 where
  pub index : ℕ
  pub content : Text
  pub token_count : ℕ
  pub start_offset : ℕ
  pub end_offset : ℕ

-- The two `ValueError`s, and the end of the fuel, which is not an error of the code.
pub data ChunkError : Type 0 where
  chunk_size_not_positive : ChunkError
  overlap_out_of_range : ChunkError
  out_of_fuel : ChunkError

unfoldable pub approx_tokens : Text → ℕ
approx_tokens text = max 1 (length text / file_chunk_token_divisor)

-- `text[start:end]`
unfoldable pub slice : (start end : ℕ) → Text → Text
slice start end text = take (end - start) (drop start text)

-- `chunks.append(...)`, where the window is not blank.
unfoldable pub emit : (index start end : ℕ) → (window : Text) → List TextChunk → List TextChunk
unfolding approx_tokens
emit index start end window rest = elim window [
  | [] ↦ rest
  | c ∷ s ↦
      record {
        index = index;
        content = c ∷ s;
        token_count = approx_tokens (c ∷ s);
        start_offset = start;
        end_offset = end;
      }
      ∷ rest
]

unfoldable pub next_index : (index : ℕ) → (window : Text) → ℕ
next_index index window = elim window [ [] ↦ index | c ∷ s ↦ suc index ]

module _ (normalized : Text) (chunk_size step : ℕ) where
  unfoldable pub window_end : ℕ → ℕ
  window_end start = min (start + chunk_size) (length normalized)

  unfoldable pub window_at : ℕ → Text
  unfolding slice window_end strip
  window_at start = strip (slice start (window_end start) normalized)

  -- The `while` loop, from `start` and the next index.
  unfoldable pub chunk_loop : (fuel index start : ℕ) → Option (List TextChunk)
  unfolding window_at window_end emit next_index
  chunk_loop zero index start = if ltb start (length normalized) then none else some []
  chunk_loop (suc fuel) index start =
      let end = window_end start in
      let window = window_at start in
      let later = chunk_loop fuel (next_index index window) (start + step) in
      if ltb start (length normalized)
      then (if leb (length normalized) end
          then some (emit index start end window [])
          else elim later [ none ↦ none | some rest ↦ some (emit index start end window rest) ])
      else some []

unfoldable pub chunk_text : Text → (chunk_size overlap : ℕ) → Result ChunkError (List TextChunk)
unfolding strip chunk_loop
chunk_text text chunk_size overlap =
    let normalized = strip text in
    if chunk_size == 0
    then err chunk_size_not_positive
    else if leb chunk_size overlap
    then err overlap_out_of_range
    else elim normalized [
      | [] ↦ ok []
      | c ∷ s ↦
          elim (chunk_loop (c ∷ s) chunk_size (chunk_size - overlap) (suc (length (c ∷ s))) 0 0) [
            | none ↦ err out_of_fuel
            | some chunks ↦ ok chunks
          ]
    ]
