-- ===== src/Files/Chunking/Coverage.antt =====
-- That the windows of the chunks cover the text.
use mathlib.Core.Path.{subst}
use gummy_os.Common.{
  ℕ, zero, suc, ◌+◌, ◌-◌, ◌≤◌, ◌<◌, ◌≡◌, Text, strip, lstrip, rstrip, is_space_code, length, drop,
  get_elem?, any, List, [], ◌∷◌, List-cases, some, Option-cases, inl, inr, arith, ok, ltb, ltb→lt,
  leb, Bool, Bool-cases, true, false, ◌&&◌, ◌∙◌, get_elem?-take, get_elem?-drop, get_elem?-lt,
}
use gummy_os.Files.Chunking.{
  TextChunk, slice, emit, next_index, window_end, window_at, chunk_loop, chunk_text,
}

-- Position `p` of the stripped text lies in the chunk's window.
abbrev pub covers : ℕ → TextChunk → Bool
covers p c = leb c.start_offset p && ltb p c.end_offset

-- A text that strips to nothing holds white space only.
rstrip-blank :
    (s : Text) (i c : ℕ) → rstrip s ≡ [] → get_elem? s i ≡ some c → is_space_code c ≡ true
unfolding rstrip
rstrip-blank [] i c h e = cc
rstrip-blank (d ∷ s) zero c h e = elim (List-cases (rstrip s)) [
  | inl blank ↦ ground arith
  | inr (b, t, full) ↦ ground arith
]
rstrip-blank (d ∷ s) (suc i) c h e = elim (List-cases (rstrip s)) [
  | inl blank ↦ ground (arith, rstrip-blank s i c)
  | inr (b, t, full) ↦ ground arith
]

-- The first character is white space, and so are the others.
strip-blank-tail :
    (d : ℕ) (s : Text) (i c : ℕ)
    → is_space_code d ≡ true
    → get_elem? (d ∷ s) i ≡ some c
    → ((j : ℕ) → get_elem? s j ≡ some c → is_space_code c ≡ true)
    → is_space_code c ≡ true
strip-blank-tail d s zero c space e k = ground arith
strip-blank-tail d s (suc i) c space e k = k i e

strip-blank : (s : Text) (i c : ℕ) → strip s ≡ [] → get_elem? s i ≡ some c → is_space_code c ≡ true
unfolding strip lstrip
strip-blank [] i c h e = cc
strip-blank (d ∷ s) i c h e = elim (Bool-cases (is_space_code d)) [
  | inl space ↦
      (let inner : strip s ≡ [] = ground arith in
        strip-blank-tail d s i c space e (λ j. strip-blank s j c inner))
  | inr solid ↦ rstrip-blank (d ∷ s) i c (ground arith) e
]

get_elem?-slice :
    (s : Text) (start end p c : ℕ)
    → start ≤ p
    → p < end
    → get_elem? s p ≡ some c
    → get_elem? (slice start end s) (p - start) ≡ some c
unfolding slice
get_elem?-slice s start end p c after before e =
    get_elem?-take (end - start) (p - start) (drop start s) (omega arith)
    ∙ get_elem?-drop start p s after
    ∙ e

module _ (normalized : Text) (chunk_size step : ℕ) (advances : step ≤ chunk_size) (p c : ℕ)
    (there : get_elem? normalized p ≡ some c) (solid : is_space_code c ≡ false) where
  -- A window with the position is emitted.
  emit-covers :
      (index start : ℕ) (rest : List TextChunk)
      → start ≤ p
      → p < window_end normalized chunk_size step start
      → any (covers p) (
          emit index start
            (window_end normalized chunk_size step start)
            (window_at normalized chunk_size step start)
            rest)
        ≡ true
  unfolding emit
  emit-covers index start rest after before =
      elim (List-cases (window_at normalized chunk_size step start)) [
        | inl blank ↦
            let space =
              strip-blank (slice start (window_end normalized chunk_size step start) normalized)
                (p - start) c (unfold window_at in blank)
                (get_elem?-slice normalized start (window_end normalized chunk_size step start) p c
                  after before there) in
            absurd (ground arith)
        | inr (d, s, e) ↦ rw e (ground arith)
      ]

  -- What is covered stays covered by one chunk more.
  emit-keeps :
      (index start end : ℕ) (window : Text) (rest : List TextChunk)
      → any (covers p) rest ≡ true
      → any (covers p) (emit index start end window rest) ≡ true
  unfolding emit
  emit-keeps index start end [] rest h = h
  emit-keeps index start end (d ∷ s) rest h = ground arith

  chunk_loop-covers :
      (fuel index start : ℕ) (chunks : List TextChunk)
      → start ≤ p
      → chunk_loop normalized chunk_size step fuel index start ≡ some chunks
      → any (covers p) chunks ≡ true
  unfolding chunk_loop
  chunk_loop-covers zero index start chunks after e =
      ground (arith, get_elem?-lt normalized p c there)
  chunk_loop-covers (suc fuel) index start chunks after e =
      let window = window_at normalized chunk_size step start in
      let end = window_end normalized chunk_size step start in
      let within = get_elem?-lt normalized p c there in
      elim (Bool-cases (leb (length normalized) end)) [
        | inl last ↦
            let only : emit index start end window [] ≡ chunks = ground arith in
            subst (λ cs. any (covers p) cs ≡ true) only
              (emit-covers index start [] after (ground arith))
        | inr more ↦
            elim (Option-cases (
              chunk_loop normalized chunk_size step fuel (next_index index window)
                (start + step))) [
                  | inl stuck ↦ absurd (ground arith)
                  | inr (rest, later) ↦
                      let both : emit index start end window rest ≡ chunks = ground arith in
                      subst (λ cs. any (covers p) cs ≡ true) both
                        (elim (Bool-cases (ltb p end)) [
                          | inl here ↦ emit-covers index start rest after (ltb→lt p end here)
                          | inr beyond ↦ emit-keeps index start end window rest (
                              chunk_loop-covers fuel (next_index index window) (start + step) rest
                                (unfold window_end in ground arith) later)
                        ])
                ]
      ]

-- Where the overlap is below the size, no text is lost: every character of the stripped text that
-- is not white space lies in the window of a chunk.
pub chunk_text-covers :
    (text : Text) (chunk_size overlap : ℕ) (chunks : List TextChunk) (p c : ℕ)
    → overlap < chunk_size
    → chunk_text text chunk_size overlap ≡ ok chunks
    → get_elem? (strip text) p ≡ some c
    → is_space_code c ≡ false
    → any (covers p) chunks ≡ true
unfolding chunk_text
chunk_text-covers text chunk_size overlap chunks p c valid ran there solid =
    elim (List-cases (strip text)) [
      | inl blank ↦ ground arith
      | inr (d, s, e) ↦
          elim (Option-cases
            (chunk_loop (d ∷ s) chunk_size (chunk_size - overlap) (suc (length (d ∷ s))) 0 0)) [
              | inl stuck ↦ absurd (ground arith)
              | inr (found, loop) ↦
                  let same : found ≡ chunks = ground arith in
                  subst (λ cs. any (covers p) cs ≡ true) same
                    (chunk_loop-covers (d ∷ s) chunk_size (chunk_size - overlap) (omega arith) p c
                      (rw e at there) solid (suc (length (d ∷ s))) 0 0 found (omega arith) loop)
            ]
    ]
