-- ===== src/Files/Segments.antt =====
-- `chunk_segments` of backend/app/services/files/chunking_service.py, and the segments of
-- backend/app/services/files/extraction_service.py that it cuts.
pub mod Provenance
use gummy_os.Common.{
  ℕ, suc, ◌+◌, ◌-◌, min, max, Text, strip, length, List, [], ◌∷◌, ◌++◌, Option, none, some, Result,
  ok, err,
}
use gummy_os.Files.Chunking.{TextChunk, ChunkError, approx_tokens, chunk_text}

pub record DocumentSegment : Type 0 where
  pub content : Text
  pub page : Option ℕ
  pub section : Option Text
  pub row_start : Option ℕ
  pub row_end : Option ℕ
  pub header : Option Text

pub record SegmentChunk : Type 0 where
  pub index : ℕ
  pub content : Text
  pub token_count : ℕ
  pub page : Option ℕ
  pub section : Option Text
  pub row_start : Option ℕ
  pub row_end : Option ℕ

-- `f"{segment.header}\n" if segment.header else ""`
unfoldable pub prefix_of : DocumentSegment → Text
prefix_of segment = elim segment.header [
  | none ↦ []
  | some [] ↦ []
  | some (c ∷ s) ↦ (c ∷ s) ++ 10 ∷ []
]

-- The room that the prefix leaves in a window. `chunk_size - len(prefix)` can be negative in the
-- source; then, as here, the budget is 1.
unfoldable pub budget : (chunk_size : ℕ) → DocumentSegment → ℕ
unfolding prefix_of
budget chunk_size segment = max 1 (chunk_size - length (prefix_of segment))

unfoldable pub segment_chunk : DocumentSegment → (index : ℕ) → TextChunk → SegmentChunk
unfolding prefix_of approx_tokens
segment_chunk segment index piece = record {
  index = index;
  content = prefix_of segment ++ piece.content;
  token_count = approx_tokens (prefix_of segment ++ piece.content);
  page = segment.page;
  section = segment.section;
  row_start = segment.row_start;
  row_end = segment.row_end;
}

-- The inner loop, from `index`.
unfoldable pub segment_chunks : DocumentSegment → (index : ℕ) → List TextChunk → List SegmentChunk
unfolding segment_chunk
segment_chunks segment index [] = []
segment_chunks segment index (piece ∷ rest) =
    segment_chunk segment index piece ∷ segment_chunks segment (suc index) rest

-- The pieces of a segment; a blank one has none.
unfoldable pub pieces_of :
    (chunk_size overlap : ℕ) → DocumentSegment → Result ChunkError (List TextChunk)
unfolding strip budget chunk_text
pieces_of chunk_size overlap segment = elim (strip segment.content) [
  | [] ↦ ok []
  | c ∷ s ↦
      chunk_text (c ∷ s) (budget chunk_size segment) (min overlap (budget chunk_size segment - 1))
]

-- The outer loop, from `index`.
unfoldable pub segments_loop :
    (chunk_size overlap index : ℕ) → List DocumentSegment → Result ChunkError (List SegmentChunk)
unfolding pieces_of segment_chunks
segments_loop chunk_size overlap index [] = ok []
segments_loop chunk_size overlap index (segment ∷ rest) =
    elim (pieces_of chunk_size overlap segment) [
      | err e ↦ err e
      | ok pieces ↦ elim (segments_loop chunk_size overlap (index + length pieces) rest) [
        | err e ↦ err e
        | ok later ↦ ok (segment_chunks segment index pieces ++ later)
      ]
    ]

unfoldable pub chunk_segments :
    List DocumentSegment → (chunk_size overlap : ℕ) → Result ChunkError (List SegmentChunk)
unfolding segments_loop
chunk_segments segments chunk_size overlap = segments_loop chunk_size overlap 0 segments
