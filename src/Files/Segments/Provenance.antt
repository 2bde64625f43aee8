-- ===== src/Files/Segments/Provenance.antt =====
-- What the chunks of a segmented document are.
use gummy_os.Common.{
  ℕ, suc, ◌+◌, ◌≤◌, ◌<◌, ◌≡◌, strip, length, get_elem?, max, List, [], ◌∷◌, ◌++◌, some, All, Result,
  ok,
}
use gummy_os.Files.Chunking.{TextChunk, ChunkError}
use gummy_os.Files.Chunking.Windows.{IsWindow}
use gummy_os.Files.Segments.{DocumentSegment, SegmentChunk, prefix_of, budget, pieces_of}

-- The indices count up from `n`.
pub IsNumbered : ℕ → List SegmentChunk → Type 0
IsNumbered n [] = Unit
IsNumbered n (c ∷ rest) = (c.index ≡ n) × IsNumbered (suc n) rest

-- The chunk is cut from one segment of the document, whose provenance it carries: its content is
-- the segment's header line and then a window of the segment's own text, stripped (twice, as the code
-- does), at least one character of it, and at most as much as leaves the chunk within `chunk_size`, or one character where the header alone takes it up.
pub record HasOrigin (segments : List DocumentSegment) (chunk_size : ℕ) (c : SegmentChunk)
    : Type 0 where
  pub position : ℕ
  pub segment : DocumentSegment
  pub is_there : get_elem? segments position ≡ some segment
  pub page_eq : c.page ≡ segment.page
  pub section_eq : c.section ≡ segment.section
  pub row_start_eq : c.row_start ≡ segment.row_start
  pub row_end_eq : c.row_end ≡ segment.row_end
  pub piece : TextChunk
  pub cut : IsWindow (strip (strip segment.content)) (budget chunk_size segment) piece
  pub content_eq : c.content ≡ prefix_of segment ++ piece.content
  pub not_blank : 0 < length piece.content
  pub fits : length c.content ≤ max chunk_size (length (prefix_of segment) + 1)

-- The pieces of a segment: windows of its budget.
record HasPieces (chunk_size overlap : ℕ) (segment : DocumentSegment) : Type 0 where
  pieces : List TextChunk
  returned : pieces_of chunk_size overlap segment ≡ ok pieces
  windows : All (IsWindow (strip (strip segment.content)) (budget chunk_size segment)) pieces

pub record IsSegmentation (segments : List DocumentSegment) (chunk_size index : ℕ)
    (r : Result ChunkError (List SegmentChunk)) : Type 0 where
  pub chunks : List SegmentChunk
  pub returned : r ≡ ok chunks
  pub numbered : IsNumbered index chunks
  pub origins : All (HasOrigin segments chunk_size) chunks
