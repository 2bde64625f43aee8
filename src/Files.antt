-- ===== src/Files.antt =====
-- The files system: how an uploaded document's text becomes chunks.
pub mod Chunking
pub mod Segments
