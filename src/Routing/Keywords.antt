-- ===== src/Routing/Keywords.antt =====
-- The keyword scorer (backend/app/services/agents/router.py). Text is that of the Latin-1 range, where
-- `\b` and `\w` follow Python.
use gummy_os.Common.{
  ℕ, ◌+◌, String, Text, lower, strip, starts_with, contains, Bool, true, false, ◌&&◌, ◌||◌, not,
  ◌==◌, leb, ltb, List, [], ◌∷◌, any, drop, length, Option, none, some, if◌then◌else◌,
}
use gummy_os.Agents.{AgentManifest}
use gummy_os.Agents.Registry as Registry

-- AGENT_ROUTER_MIN_SCORE, AGENT_ROUTER_PHRASE_WEIGHT and AGENT_ROUTER_KEYWORD_WEIGHT.
abbrev pub min_score : ℕ
min_score = 1

abbrev phrase_weight : ℕ
phrase_weight = 2

abbrev keyword_weight : ℕ
keyword_weight = 1

-- `\w` on one code point: the letters, the digits, `_`, and the numerals that are no digits.
unfoldable is_word_code : ℕ → Bool
is_word_code c =
    leb 48 c && leb c 57
    || leb 65 c && leb c 90
    || c == 95
    || leb 97 c && leb c 122
    || c == 170
    || leb 178 c && leb c 179
    || c == 181
    || leb 185 c && leb c 186
    || leb 188 c && leb c 190
    || leb 192 c && not (c == 215) && not (c == 247)

-- Whether a word character stands beside a position; `none` is the end of the text.
unfoldable is_word : Option ℕ → Bool
unfolding is_word_code
is_word none = false
is_word (some c) = is_word_code c

unfoldable pub head : Text → Option ℕ
head [] = none
head (c ∷ s) = some c

-- `\b` between two positions.
unfoldable is_boundary : (before after : Option ℕ) → Bool
unfolding is_word
is_boundary before after = if is_word before then not (is_word after) else is_word after

unfoldable last_or : Option ℕ → Text → Option ℕ
last_or before [] = before
last_or before (c ∷ s) = last_or (some c) s

-- The phrase stands here, with `\b` before it, and after it where `ends` says so.
unfoldable stands_at : (ends : Bool) (phrase : Text) (before : Option ℕ) → Text → Bool
unfolding starts_with is_boundary head last_or
stands_at ends phrase before s =
    starts_with phrase s
    && is_boundary before (head s)
    && (not ends || is_boundary (last_or before phrase) (head (drop (length phrase) s)))

-- `re.search`
unfoldable pub search_word : (ends : Bool) (phrase : Text) (before : Option ℕ) → Text → Bool
unfolding stands_at
search_word ends phrase before [] = stands_at ends phrase before []
search_word ends phrase before (c ∷ s) =
    stands_at ends phrase before (c ∷ s) || search_word ends phrase (some c) s

unfoldable has_space : Text → Bool
has_space s = any (λ c. c == b' ') s

unfoldable keyword_matches : (keyword lowered : Text) → Bool
unfolding lower strip has_space contains search_word
keyword_matches keyword lowered = elim (lower (strip keyword)) [
  | [] ↦ false
  | c ∷ kw ↦
      if has_space (c ∷ kw)
      then contains (c ∷ kw) lowered
      else search_word true (c ∷ kw) none lowered
]

-- The score over the keywords, with those that matched.
unfoldable score_keywords : List Text → (lowered : Text) → ℕ × List Text
unfolding keyword_matches has_space strip
score_keywords [] lowered = (0, [])
score_keywords (keyword ∷ rest) lowered =
    let (score, matched) = score_keywords rest lowered in
    if keyword_matches keyword lowered
    then (
      (if has_space (strip keyword) then phrase_weight else keyword_weight) + score,
      strip keyword ∷ matched,
    )
    else (score, matched)

unfoldable pub score_specialist : AgentManifest → (lowered : Text) → ℕ × List Text
unfolding score_keywords
score_specialist manifest lowered = score_keywords manifest.keywords lowered

-- `best_key`, `best_score`, `best_priority` and `best_matched`.
pub record Best : Type 0 where
  pub key : String
  pub score : ℕ
  pub priority : ℕ
  pub matched : List Text

-- `(score, priority) > (best_score, best_priority)`; before the first candidate these are (0, -1).
unfoldable pub beats : (score priority : ℕ) → Option Best → Bool
beats score priority none = true
beats score priority (some b) = ltb b.score score || score == b.score && ltb b.priority priority

-- What the loop makes of one key: `none` where it is not registered or below the bar.
unfoldable pub candidate : List AgentManifest → (lowered : Text) → (key : String) → Option Best
unfolding score_specialist Registry.get
candidate registry lowered key = elim (Registry.get registry key) [
  | none ↦ none
  | some manifest ↦
      let (score, matched) = score_specialist manifest lowered in
      if ltb score min_score
      then none
      else some
          (record { key = key; score = score; priority = manifest.priority; matched = matched })
]

-- The loop over the keys of the specialists, from the best so far.
unfoldable pub best_of :
    List AgentManifest → (lowered : Text) → Option Best → List String → Option Best
unfolding candidate beats
best_of registry lowered best [] = best
best_of registry lowered best (key ∷ rest) = elim (candidate registry lowered key) [
  | none ↦ best_of registry lowered best rest
  | some b ↦ elim (beats b.score b.priority best) [
    | true ↦ best_of registry lowered (some b) rest
    | false ↦ best_of registry lowered best rest
  ]
]
