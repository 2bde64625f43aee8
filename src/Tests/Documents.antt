-- ===== src/Tests/Documents.antt =====
-- backend/app/services/files/chunking_service.py at small texts.
use gummy_os.Common.{
  Text, codes, strip, any, List, [], ◌∷◌, none, some, ok, err, ◌≡◌, refl, true, arith,
}
use gummy_os.Files.Chunking.{TextChunk, chunk_text, chunk_size_not_positive, overlap_out_of_range}
use gummy_os.Files.Chunking.Windows.{IsChunking, chunk_text-IsChunking}
use gummy_os.Files.Chunking.Coverage.{covers, chunk_text-covers}
use gummy_os.Files.Segments.{DocumentSegment}

abbrev greeting : Text
greeting = codes " hello world "

abbrev pieces : List TextChunk
pieces =
    record { index = 0; content = codes "hello"; token_count = 1; start_offset = 0; end_offset = 6 }
    ∷ record {
      index = 1;
      content = codes "o worl";
      token_count = 1;
      start_offset = 4;
      end_offset = 10;
    }
    ∷ record {
      index = 2;
      content = codes "rld";
      token_count = 1;
      start_offset = 8;
      end_offset = 11;
    }
    ∷ []

-- Windows of six characters that share two.
greeting-pieces : chunk_text greeting 6 2 ≡ ok pieces
unfolding chunk_text
greeting-pieces = refl

no_size : chunk_text greeting 0 0 ≡ err chunk_size_not_positive
unfolding chunk_text
no_size = refl

too_much_overlap : chunk_text greeting 4 4 ≡ err overlap_out_of_range
unfolding chunk_text
too_much_overlap = refl

chunk_text-IsChunking_example : IsChunking greeting 6 2
chunk_text-IsChunking_example = chunk_text-IsChunking greeting 6 2 (omega arith)

chunk_text-covers_example : any (covers 10) pieces ≡ true
unfolding strip
chunk_text-covers_example =
    chunk_text-covers greeting 6 2 pieces 10 100 (omega arith) greeting-pieces refl refl

abbrev sheet : List DocumentSegment
sheet =
    record {
      content = codes "1,2";
      page = none;
      section = none;
      row_start = some 1;
      row_end = some 1;
      header = some (codes "a,b");
    }
    ∷ []
