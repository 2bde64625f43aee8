-- ===== src/Files/Chunking/Windows.antt =====
-- That the loop ends, and what each chunk is.
use mathlib.Core.Path.{subst}
use gummy_os.Common.{
  ℕ, zero, suc, ◌+◌, ◌-◌, ◌≤◌, ◌<◌, ◌≡◌, refl, Text, strip, lstrip, rstrip, length, drop,
  length-take-le, List, [], ◌∷◌, List-cases, some, Option-cases, inl, inr, All, sym, ap, arith, ok,
  ltb, ltb→lt, leb, Bool-cases,
}
use gummy_os.Files.Chunking.{
  TextChunk, approx_tokens, slice, emit, next_index, window_end, window_at, chunk_loop, chunk_text,
}

-- The indices count up from `n`.
pub IsNumbered : ℕ → List TextChunk → Type 0
IsNumbered n [] = Unit
IsNumbered n (c ∷ rest) = (c.index ≡ n) × IsNumbered (suc n) rest

-- A chunk of the text: the stripped characters of its window, at least one and at most
-- `chunk_size` of them.
pub record IsWindow (normalized : Text) (chunk_size : ℕ) (c : TextChunk) : Type 0 where
  pub in_order : c.start_offset < c.end_offset
  pub in_text : c.end_offset ≤ length normalized
  pub content_eq : c.content ≡ strip (slice c.start_offset c.end_offset normalized)
  pub not_blank : 0 < length c.content
  pub fits : length c.content ≤ chunk_size
  pub tokens_eq : c.token_count ≡ approx_tokens c.content

length-lstrip-le : (s : Text) → length (lstrip s) ≤ length s
unfolding lstrip
length-lstrip-le [] = omega arith
length-lstrip-le (c ∷ s) = ground (arith, length-lstrip-le s)

length-rstrip-le : (s : Text) → length (rstrip s) ≤ length s
unfolding rstrip
length-rstrip-le [] = omega arith
length-rstrip-le (c ∷ s) = elim (List-cases (rstrip s)) [
  | inl blank ↦ ground arith
  | inr (d, t, e) ↦ ground (arith, length-rstrip-le s)
]

length-strip-le : (s : Text) → length (strip s) ≤ length s
unfolding strip
length-strip-le s = omega (arith, length-rstrip-le (lstrip s), length-lstrip-le s)

module _ (normalized : Text) (chunk_size step : ℕ) (some_size : 0 < chunk_size)
    (some_step : 0 < step) where
  -- Enough fuel: each round moves `start` by at least 1.
  chunk_loop-returns :
      (fuel index start : ℕ)
      → length normalized ≤ start + fuel
      → (chunks : List TextChunk) × (chunk_loop normalized chunk_size step fuel index start
          ≡ some chunks)
  unfolding chunk_loop
  chunk_loop-returns zero index start enough = ([], ground arith)
  chunk_loop-returns (suc fuel) index start enough =
      let window = window_at normalized chunk_size step start in
      let end = window_end normalized chunk_size step start in
      let (rest, later) =
        chunk_loop-returns fuel (next_index index window) (start + step) (omega arith) in
      elim (Bool-cases (ltb start (length normalized))) [
        | inr past ↦ ([], ground arith)
        | inl inside ↦ elim (Bool-cases (leb (length normalized) end)) [
          | inl last ↦ (emit index start end window [], ground arith)
          | inr more ↦ (emit index start end window rest, ground arith)
        ]
      ]

  length-window-le : (start : ℕ) → length (window_at normalized chunk_size step start) ≤ chunk_size
  unfolding window_at slice window_end
  length-window-le start =
      let end = window_end normalized chunk_size step start in
      omega (
        arith,
        length-strip-le (slice start end normalized),
        length-take-le (end - start) (drop start normalized),
      )

  emit-IsWindow :
      (index start : ℕ) (rest : List TextChunk)
      → start < length normalized
      → All (IsWindow normalized chunk_size) rest
      → All (IsWindow normalized chunk_size) (
          emit index start
            (window_end normalized chunk_size step start)
            (window_at normalized chunk_size step start)
            rest)
  unfolding emit
  emit-IsWindow index start rest inside h =
      elim (List-cases (window_at normalized chunk_size step start)) [
        | inl blank ↦ rw blank h
        | inr (c, s, e) ↦ rw e (
          record {
            in_order = unfold window_end in omega arith;
            in_text = unfold window_end in omega arith;
            content_eq = unfold window_at in sym e;
            not_blank = omega arith;
            fits = omega (arith, ap (λ t. length t) e, length-window-le start);
            tokens_eq = refl;
          },
          h,
        )
      ]

  emit-IsNumbered :
      (index start end : ℕ) (window : Text) (rest : List TextChunk)
      → IsNumbered (next_index index window) rest
      → IsNumbered index (emit index start end window rest)
  unfolding emit next_index IsNumbered
  emit-IsNumbered index start end [] rest h = h
  emit-IsNumbered index start end (c ∷ s) rest h = (refl, h)

  -- Each chunk of the loop is a window, and their indices count up from the first.
  chunk_loop-IsWindow :
      (fuel index start : ℕ) (chunks : List TextChunk)
      → chunk_loop normalized chunk_size step fuel index start ≡ some chunks
      → All (IsWindow normalized chunk_size) chunks × IsNumbered index chunks
  unfolding chunk_loop IsNumbered
  chunk_loop-IsWindow zero index start chunks e =
      let none : [] ≡ chunks = ground arith in
      subst (λ cs. All (IsWindow normalized chunk_size) cs × IsNumbered index cs) none (tt, tt)
  chunk_loop-IsWindow (suc fuel) index start chunks e =
      let window = window_at normalized chunk_size step start in
      let end = window_end normalized chunk_size step start in
      let Good : List TextChunk → Type 0 =
        λ cs. All (IsWindow normalized chunk_size) cs × IsNumbered index cs in
      let good : (rest : List TextChunk)
          → start < length normalized
          → All (IsWindow normalized chunk_size) rest
          → IsNumbered (next_index index window) rest
          → Good (emit index start end window rest) =
        λ rest inside h n. (
          emit-IsWindow index start rest inside h,
          emit-IsNumbered index start end window rest n,
        ) in
      let empty : Good [] = (tt, tt) in
      elim (Bool-cases (ltb start (length normalized))) [
        | inr past ↦ (let same : [] ≡ chunks = ground arith in subst Good same empty)
        | inl inside ↦ elim (Bool-cases (leb (length normalized) end)) [
          | inl last ↦
              let same : emit index start end window [] ≡ chunks = ground arith in
              subst Good same (good [] (ltb→lt start (length normalized) inside) tt tt)
          | inr more ↦
              elim (Option-cases (
                chunk_loop normalized chunk_size step fuel (next_index index window)
                  (start + step))) [
                    | inl stuck ↦ absurd (ground arith)
                    | inr (rest, later) ↦
                        let (h, n) =
                          chunk_loop-IsWindow fuel (next_index index window) (start + step) rest
                            later in
                        let same : emit index start end window rest ≡ chunks = ground arith in
                        subst Good same (good rest (ltb→lt start (length normalized) inside) h n)
                  ]
        ]
      ]

pub record IsChunking (text : Text) (chunk_size overlap : ℕ) : Type 0 where
  pub chunks : List TextChunk
  pub returned : chunk_text text chunk_size overlap ≡ ok chunks
  pub windows : All (IsWindow (strip text) chunk_size) chunks
  pub numbered : IsNumbered 0 chunks

-- Where the overlap is below the size, `chunk_text` returns: its chunks have the indices 0, 1, 2, …
-- in order, and each is the stripped, non-blank content of its window of the stripped text, at most
-- `chunk_size` characters long, with the token count of its content.
pub chunk_text-IsChunking :
    (text : Text) (chunk_size overlap : ℕ)
    → overlap < chunk_size
    → IsChunking text chunk_size overlap
unfolding chunk_text
chunk_text-IsChunking text chunk_size overlap valid = elim (List-cases (strip text)) [
  | inl blank ↦ record {
    chunks = [];
    returned = ground arith;
    windows = tt;
    numbered = unfold IsNumbered in tt;
  }
  | inr (c, s, e) ↦
      let step = chunk_size - overlap in
      let (chunks, ran) =
        chunk_loop-returns (c ∷ s) chunk_size step (omega arith) (omega arith)
          (suc (length (c ∷ s))) 0 0 (omega arith) in
      let (windows, numbered) =
        chunk_loop-IsWindow (c ∷ s) chunk_size step (omega arith) (omega arith)
          (suc (length (c ∷ s))) 0 0 chunks ran in
      record {
        chunks = chunks;
        returned = ground arith;
        windows = rw e windows;
        numbered = numbered;
      }
]
